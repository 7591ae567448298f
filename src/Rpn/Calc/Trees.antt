-- ===== src/Rpn/Calc/Trees.antt =====
-- What `rpn_calc` (rrdtool-1.4.5/src/rrd_rpncalc.c) computes for an expression written out from a
-- tree in postfix order: the value of the tree.
use mathlib.Core.List.{append_assoc}
use administracion_servicios.Prelude.{
  ℕ, ◌≡◌, refl, ap, ◌∙◌, Bool, true, false, Option, none, some, List, [], ◌∷◌, ◌++◌, if◌then◌else◌,
  set, arith,
}
use administracion_servicios.Double.{Double}
use administracion_servicios.Rpn.{
  op_number, op_variable, op_inf, op_prev, op_neginf, op_unkn, op_now, op_time, op_dup, op_exc,
  op_pop, op_end, op_ltime, op_prev_other, op_count, op_sort, op_rev, op_trend, op_trendnan,
  op_predict, op_predictsigma, op_avg, Op, Node, Math,
}
use administracion_servicios.Rpn.Stack.{ok, Shape, unary, binary, ternary, other, shape, apply}
use administracion_servicios.Rpn.Calc.{
  Call, Machine, pushed, is_zero, variable_value, operate, after, grown, step, is_end, run,
  rpn_calc,
}

-- an expression: a node without operands, or with one, two or three
pub data Tree (V : Type 0) : Type 0 where
  leaf : Node V → Tree V
  tree1 : Node V → Tree V → Tree V
  tree2 : Node V → Tree V → Tree V → Tree V
  tree3 : Node V → Tree V → Tree V → Tree V → Tree V

abbrev pub postfix : {V : Type 0} → Tree V → List (Node V)
postfix (leaf n) = n ∷ []
postfix (tree1 n a) = postfix a ++ (n ∷ [])
postfix (tree2 n a b) = postfix a ++ (postfix b ++ (n ∷ []))
postfix (tree3 n a b c) = postfix a ++ (postfix b ++ (postfix c ++ (n ∷ [])))

module _ (F : Double) (m : Math F) (c : Call F) where
  open F use {V}

  -- the value of a node without operands, if it is one
  abbrev pub leaf_value : Op → Node V → Option V
  leaf_value op_number n = some (pushed F m c op_number n)
  leaf_value op_count n = some (pushed F m c op_count n)
  leaf_value op_prev n = some (pushed F m c op_prev n)
  leaf_value op_unkn n = some (pushed F m c op_unkn n)
  leaf_value op_inf n = some (pushed F m c op_inf n)
  leaf_value op_neginf n = some (pushed F m c op_neginf n)
  leaf_value op_now n = some (pushed F m c op_now n)
  leaf_value op_time n = some (pushed F m c op_time n)
  leaf_value op_ltime n = some (pushed F m c op_ltime n)
  leaf_value op_variable n =
      if is_zero F m c n.ds_cnt then none else some (variable_value F m c op_variable n)
  leaf_value op_prev_other n =
      if is_zero F m c n.ds_cnt then none else some (variable_value F m c op_prev_other n)
  leaf_value _ n = none

  abbrev pub value1 : Shape F m → Option V → Option V
  value1 (unary f) (some x) = some (f x)
  value1 _ _ = none

  abbrev pub value2 : Shape F m → Option V → Option V → Option V
  value2 (binary f) (some x) (some y) = some (f x y)
  value2 _ _ _ = none

  abbrev pub value3 : Shape F m → Option V → Option V → Option V → Option V
  value3 (ternary f) (some x) (some y) (some z) = some (f x y z)
  value3 _ _ _ _ = none

  -- the value of a tree, by recursion on it; none where a node has the wrong number of operands
  abbrev pub tree_value : Tree V → Option V
  tree_value (leaf n) = leaf_value n.op n
  tree_value (tree1 n a) = value1 (shape F m n.op) (tree_value a)
  tree_value (tree2 n a b) = value2 (shape F m n.op) (tree_value a) (tree_value b)
  tree_value (tree3 n a b d) = value3 (shape F m n.op) (tree_value a) (tree_value b) (tree_value d)

  abbrev is_other : Shape F m → Bool
  is_other other = true
  is_other _ = false

  operate-shape :
      (op : Op) (n : Node V) (s : Machine F)
      → is_other (shape F m op) ≡ false
      → (operate F m c op n s ≡ apply F m (shape F m op) s.stack) × (is_end F m c op ≡ false)
  unfolding shape operate
  operate-shape op_number n s h = cc
  operate-shape op_variable n s h = cc
  operate-shape op_inf n s h = cc
  operate-shape op_prev n s h = cc
  operate-shape op_neginf n s h = cc
  operate-shape op_unkn n s h = cc
  operate-shape op_now n s h = cc
  operate-shape op_time n s h = cc
  operate-shape op_dup n s h = cc
  operate-shape op_exc n s h = cc
  operate-shape op_pop n s h = cc
  operate-shape op_end n s h = cc
  operate-shape op_ltime n s h = cc
  operate-shape op_prev_other n s h = cc
  operate-shape op_count n s h = cc
  operate-shape op_sort n s h = cc
  operate-shape op_rev n s h = cc
  operate-shape op_trend n s h = cc
  operate-shape op_trendnan n s h = cc
  operate-shape op_predict n s h = cc
  operate-shape op_predictsigma n s h = cc
  operate-shape op_avg n s h = cc
  operate-shape _ n s h = (refl, refl)

  operate-leaf :
      (op : Op) (n : Node V) (s : Machine F) (v : V)
      → leaf_value op n ≡ some v
      → (operate F m c op n s ≡ ok (v ∷ s.stack)) × (is_end F m c op ≡ false)
  unfolding operate
  operate-leaf op_number n s v h = (ground (arith, h), refl)
  operate-leaf op_count n s v h = (ground (arith, h), refl)
  operate-leaf op_prev n s v h = (ground (arith, h), refl)
  operate-leaf op_unkn n s v h = (ground (arith, h), refl)
  operate-leaf op_inf n s v h = (ground (arith, h), refl)
  operate-leaf op_neginf n s v h = (ground (arith, h), refl)
  operate-leaf op_now n s v h = (ground (arith, h), refl)
  operate-leaf op_time n s v h = (ground (arith, h), refl)
  operate-leaf op_ltime n s v h = (ground (arith, h), refl)
  operate-leaf op_variable n s v h = (ground (arith, h), refl)
  operate-leaf op_prev_other n s v h = (ground (arith, h), refl)
  operate-leaf _ n s v h = cc

  grown-stack : (s : Machine F) → (grown F m c s).stack ≡ s.stack
  grown-stack s = ground arith

  -- The nodes put their value on the stack and leave it otherwise as it was.
  Pushes : List (Node V) → Machine F → V → Type 0
  Pushes ns s v =
      (t : Machine F) × (t.stack ≡ v ∷ s.stack)
      × ((rest : List (Node V)) → run F m c (ns ++ rest) s ≡ run F m c rest t)

  run-node :
      (n : Node V) (s : Machine F) (st : List V)
      → operate F m c n.op n (grown F m c s) ≡ ok st
      → is_end F m c n.op ≡ false
      → (t : Machine F) × (t.stack ≡ st)
        × ((rest : List (Node V)) → run F m c (n ∷ rest) s ≡ run F m c rest t)
  unfolding run step
  run-node n s st e k = (
    record (grown F m c s) { stack = st; before = after F m c n.op n ∷ s.before },
    refl,
    λ rest. ground (arith, e, k),
  )

  run-append :
      (xs ys zs : List (Node V)) (s : Machine F)
      → run F m c ((xs ++ ys) ++ zs) s ≡ run F m c (xs ++ (ys ++ zs)) s
  run-append xs ys zs s = ap (λ l. run F m c l s) (append_assoc xs ys zs)

  run-shape :
      (n : Node V) (s : Machine F) (st st' : List V)
      → s.stack ≡ st
      → is_other (shape F m n.op) ≡ false
      → apply F m (shape F m n.op) st ≡ ok st'
      → (t : Machine F) × (t.stack ≡ st')
        × ((rest : List (Node V)) → run F m c (n ∷ rest) s ≡ run F m c rest t)
  run-shape n s st st' p k e =
      let (a, b) = operate-shape n.op n (grown F m c s) k in
      run-node n s st' (a ∙ ap (apply F m (shape F m n.op)) (grown-stack s ∙ p) ∙ e) b

  value1-apply :
      (sh : Shape F m) (o : Option V) (v : V)
      → value1 sh o ≡ some v
      → (w : V) × (o ≡ some w)
        × (is_other sh ≡ false)
        × ((s : List V) → apply F m sh (w ∷ s) ≡ ok (v ∷ s))
  value1-apply (unary f) (some w) v h = (w, refl, refl, λ s. cc)
  value1-apply (unary f) none v h = cc
  value1-apply (binary f) o v h = cc
  value1-apply (ternary f) o v h = cc
  value1-apply other o v h = cc

  value2-apply :
      (sh : Shape F m) (o p : Option V) (v : V)
      → value2 sh o p ≡ some v
      → (w u : V) × (o ≡ some w)
        × (p ≡ some u)
        × (is_other sh ≡ false)
        × ((s : List V) → apply F m sh (u ∷ w ∷ s) ≡ ok (v ∷ s))
  value2-apply (binary f) (some w) (some u) v h = (w, u, refl, refl, refl, λ s. cc)
  value2-apply (binary f) (some w) none v h = cc
  value2-apply (binary f) none p v h = cc
  value2-apply (unary f) o p v h = cc
  value2-apply (ternary f) o p v h = cc
  value2-apply other o p v h = cc

  value3-apply :
      (sh : Shape F m) (o p q : Option V) (v : V)
      → value3 sh o p q ≡ some v
      → (w u t : V) × (o ≡ some w)
        × (p ≡ some u)
        × (q ≡ some t)
        × (is_other sh ≡ false)
        × ((s : List V) → apply F m sh (t ∷ u ∷ w ∷ s) ≡ ok (v ∷ s))
  value3-apply (ternary f) (some w) (some u) (some t) v h =
      (w, u, t, refl, refl, refl, refl, λ s. cc)
  value3-apply (ternary f) (some w) (some u) none v h = cc
  value3-apply (ternary f) (some w) none q v h = cc
  value3-apply (ternary f) none p q v h = cc
  value3-apply (unary f) o p q v h = cc
  value3-apply (binary f) o p q v h = cc
  value3-apply other o p q v h = cc

  run-postfix :
      (e : Tree V) (s : Machine F) (v : V) → tree_value e ≡ some v → Pushes (postfix e) s v
  unfolding Pushes
  run-postfix (leaf n) s v h =
      let (a, b) = operate-leaf n.op n (grown F m c s) v h in
      run-node n s (v ∷ s.stack) (rw (grown-stack s) at a) b
  run-postfix (tree1 n x) s v h =
      let (w, o, k, g) = value1-apply (shape F m n.op) (tree_value x) v h in
      let (t, p, f) = run-postfix x s w o in
      let (u, q, r) = run-shape n t (w ∷ s.stack) (v ∷ s.stack) p k (g s.stack) in
      (u, q, λ rest. run-append (postfix x) (n ∷ []) rest s ∙ f (n ∷ rest) ∙ r rest)
  run-postfix (tree2 n x y) s v h =
      let (w₁, w₂, o₁, o₂, k, g) =
        value2-apply (shape F m n.op) (tree_value x) (tree_value y) v h in
      let (t₁, p₁, f₁) = run-postfix x s w₁ o₁ in
      let (t₂, p₂, f₂) = run-postfix y t₁ w₂ o₂ in
      let st : t₂.stack ≡ w₂ ∷ w₁ ∷ s.stack = p₂ ∙ ap (λ z. w₂ ∷ z) p₁ in
      let (u, q, r) = run-shape n t₂ (w₂ ∷ w₁ ∷ s.stack) (v ∷ s.stack) st k (g s.stack) in
      (
        u,
        q,
        λ rest.
            run-append (postfix x) (postfix y ++ (n ∷ [])) rest s
            ∙ f₁ ((postfix y ++ (n ∷ [])) ++ rest)
            ∙ run-append (postfix y) (n ∷ []) rest t₁
            ∙ f₂ (n ∷ rest)
            ∙ r rest,
      )
  run-postfix (tree3 n x y z) s v h =
      let (w₁, w₂, w₃, o₁, o₂, o₃, k, g) =
        value3-apply (shape F m n.op) (tree_value x) (tree_value y) (tree_value z) v h in
      let (t₁, p₁, f₁) = run-postfix x s w₁ o₁ in
      let (t₂, p₂, f₂) = run-postfix y t₁ w₂ o₂ in
      let (t₃, p₃, f₃) = run-postfix z t₂ w₃ o₃ in
      let st : t₃.stack ≡ w₃ ∷ w₂ ∷ w₁ ∷ s.stack =
        p₃ ∙ ap (λ l. w₃ ∷ l) (p₂ ∙ ap (λ l. w₂ ∷ l) p₁) in
      let (u, q, r) = run-shape n t₃ (w₃ ∷ w₂ ∷ w₁ ∷ s.stack) (v ∷ s.stack) st k (g s.stack) in
      (
        u,
        q,
        λ rest.
            run-append (postfix x) (postfix y ++ (postfix z ++ (n ∷ []))) rest s
            ∙ f₁ ((postfix y ++ (postfix z ++ (n ∷ []))) ++ rest)
            ∙ run-append (postfix y) (postfix z ++ (n ∷ [])) rest t₁
            ∙ f₂ ((postfix z ++ (n ∷ [])) ++ rest)
            ∙ run-append (postfix z) (n ∷ []) rest t₂
            ∙ f₃ (n ∷ rest)
            ∙ r rest,
      )

  -- An expression that is a tree written out in postfix order, each operator with the operands it
  -- takes, is computed without an error: the output gets the value of the tree. The operators are
  -- those that replace one, two or three operands by a value.
  pub rpn_calc-tree_value :
      (e : Tree V) (n : Node V) (size : ℕ) (v : V)
      → tree_value e ≡ some v
      → is_end F m c n.op ≡ true
      → (s : Machine F) × (rpn_calc F m c (postfix e ++ (n ∷ [])) size
          ≡ ok (set c.output c.output_idx v, s))
  unfolding rpn_calc Pushes run
  rpn_calc-tree_value e n size v h k =
      let (t, p, f) = run-postfix e (record { stack = []; dc_stacksize = size; before = [] }) v h in
      (t, ground (arith, f (n ∷ []), k, p))
