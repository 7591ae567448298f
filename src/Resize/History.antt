-- ===== src/Resize/History.antt =====
-- What `rrd_resize` of rrdtool-1.4.5/src/rrd_resize.c makes of the rows of the target archive.
use mathlib.Core.List.{append_assoc}
use administracion_servicios.Prelude.{
  ℕ, ◌+◌, ◌-◌, ◌*◌, ◌%◌, ◌≤◌, ◌<◌, ◌≡◌, refl, ◌∙◌, ap, sym, inl, inr, true, List, [], ◌++◌, leb,
  length, drop, take, replicate, length-drop, length-take_le, Bool-cases, arith,
}
use administracion_servicios.Resize.{
  Ring, Files, pad, remove_front, grow_ring, unwrapped, shrink_rest, shrink_ring,
}
use administracion_servicios.Resize.Loops.{
  at, Stands, take-drop, copy_lem, pad_lem, not_wrapped, wrapped, drop-in_front, drop-past,
  ends_behind, ends_around, leb-around, together, apart,
}

module _ {V : Type 0} where
  -- What becomes of the target archive: the values up to the current row and those behind it, which
  -- are the older ones.
  pub record Turned (s : Files V) (post w h : List V) (n ds : ℕ) : Type 0 where
    pub up_to : List V
    pub behind : List V
    pub ring : Ring
    pub left : ℕ
    pub unread : List V
    pub put_down : List V
    pub stands : Stands s unread put_down ring left
    pub joined : put_down ++ unread ≡ w ++ (up_to ++ (behind ++ post))
    pub in_order : behind ++ up_to ≡ h
    pub rows : ring.row_cnt ≡ n
    pub measured : length up_to ≡ (ring.cur_row + 1) * ds

  module _ (ds c m j : ℕ) (a b post w : List V) (f : V) (ea : length a ≡ (c + 1) * ds)
      (eb : length b ≡ j * ds) where
    abbrev pub start : Files V
    start = at (a ++ (b ++ post)) w f (record { row_cnt = c + 1 + j; cur_row = c }) m

    shrink_behind :
        (i : ℕ)
        → j ≡ i + m
        → 0 < m
        → Turned (shrink_ring ds start) post w (drop (m * ds) (b ++ a)) (c + 1 + j - m) ds
    unfolding shrink_ring
    shrink_behind i e p = record {
      up_to = a;
      behind = drop (m * ds) b;
      ring = record { row_cnt = c + 1 + i; cur_row = c };
      left = 0;
      unread = drop (m * ds) b ++ post;
      put_down = w ++ a;
      stands = stands_behind;
      joined = append_assoc w a (drop (m * ds) b ++ post);
      in_order = sym (drop-in_front (m * ds) b a (grind arith));
      rows = omega arith;
      measured = ea;
    }
      where
        old_ring : Ring
        old_ring = record { row_cnt = c + 1 + j; cur_row = c }

        enough : m * ds ≤ length b
        enough = grind arith

        cut : a ++ (b ++ post) ≡ a ++ ((take (m * ds) b ++ drop (m * ds) b) ++ post)
        cut = ap (λ (v : List V). a ++ (v ++ post)) (sym (take-drop (m * ds) b))

        more : c + 1 + j ≡ c + 1 + i + m
        more = omega arith

        stands_behind :
            Stands
              (shrink_rest ds (unwrapped ds start))
              (drop (m * ds) b ++ post)
              (w ++ a)
              (record { row_cnt = c + 1 + i; cur_row = c })
              0
        stands_behind =
            let (d, h) =
              not_wrapped ds c m (c + 1 + i) a (take (m * ds) b) (drop (m * ds) b) post w f ea
                (length-take_le (m * ds) b enough) in
            (
              d,
              rw (ends_behind c j m (omega arith) p) (
                  ap (λ (v : List V). shrink_rest ds (at v w f old_ring m)) cut
                  ∙ ap
                      (λ (n : ℕ). shrink_rest ds (
                        at (a ++ ((take (m * ds) b ++ drop (m * ds) b) ++ post)) w f
                          (record { row_cnt = n; cur_row = c }) m))
                      more
                  ∙ h),
            )

    shrink_around :
        (k d : ℕ)
        → m ≡ j + k
        → c ≡ d + k
        → 0 < k
        → Turned (shrink_ring ds start) post w (drop (m * ds) (b ++ a)) (c + 1 + j - m) ds
    unfolding shrink_ring
    shrink_around k d e e' p = record {
      up_to = drop (k * ds) a;
      behind = [];
      ring = record { row_cnt = d + 1; cur_row = d };
      left = 0;
      unread = post;
      put_down = w ++ drop (k * ds) a;
      stands = stands_around;
      joined = append_assoc w (drop (k * ds) a) post;
      in_order = sym in_order_around;
      rows = omega arith;
      measured = omega (arith, length-drop (k * ds) a, rows_apart);
    }
      where
        long : k * ds ≤ length a
        long = grind arith

        rows_apart : (c + 1) * ds ≡ (d + 1) * ds + k * ds
        rows_apart = ap (λ (n : ℕ). (n + 1) * ds) e' ∙ apart d k ds

        removed : m * ds ≡ length b + k * ds
        removed = ap (λ (n : ℕ). n * ds) e ∙ together j k ds ∙ ap (λ (n : ℕ). n + k * ds) (sym eb)

        in_order_around : drop (m * ds) (b ++ a) ≡ drop (k * ds) a
        in_order_around = ap (λ (n : ℕ). drop n (b ++ a)) removed ∙ drop-past (k * ds) b a

        at_ring : List V → ℕ → ℕ → ℕ → Files V
        at_ring v n q l = at v w f (record { row_cnt = n; cur_row = q }) l

        shrunk : Files V → Files V
        shrunk t = shrink_rest ds (remove_front k ds t)

        cut : a ++ (b ++ post) ≡ (take (k * ds) a ++ drop (k * ds) a) ++ (b ++ post)
        cut = ap (λ (v : List V). v ++ (b ++ post)) (sym (take-drop (k * ds) a))

        one_more : (c + m) % (c + 1 + j) + 1 ≡ k
        one_more = ap (λ (n : ℕ). (c + n) % (c + 1 + j) + 1) e ∙ ends_around c j k (omega arith) p

        test : leb ((c + m) % (c + 1 + j)) c ≡ true
        test = ap (λ (n : ℕ). leb ((c + n) % (c + 1 + j)) c) e ∙ leb-around c j k (omega arith) p

        all_rows : c + 1 + j ≡ d + 1 + j + k
        all_rows = omega arith

        stands_around :
            Stands
              (shrink_rest ds (unwrapped ds start))
              post
              (w ++ drop (k * ds) a)
              (record { row_cnt = d + 1; cur_row = d })
              0
        stands_around =
            let (g, h) =
              wrapped ds d k j (d + 1) (take (k * ds) a) (drop (k * ds) a) b post w f
                (length-take_le (k * ds) a long) (omega (arith, length-drop (k * ds) a, rows_apart))
                eb in
            (
              g,
              rw (test, one_more)
                  (ap (λ (v : List V). shrunk (at_ring v (c + 1 + j) c m)) cut
                    ∙ ap
                        (λ (n : ℕ).
                          shrunk
                            (at_ring ((take (k * ds) a ++ drop (k * ds) a) ++ (b ++ post)) n c m))
                        all_rows
                    ∙ ap
                        (λ (n : ℕ). shrunk (
                          at_ring ((take (k * ds) a ++ drop (k * ds) a) ++ (b ++ post))
                            (d + 1 + j + k) n m))
                        e'
                    ∙ ap
                        (λ (n : ℕ). shrunk (
                          at_ring ((take (k * ds) a ++ drop (k * ds) a) ++ (b ++ post))
                            (d + 1 + j + k) (d + k) n))
                        e
                    ∙ h),
            )

    -- an archive that keeps a row at least
    pub shrink_ring-Turned :
        0 < m
        → m < c + 1 + j
        → Turned (shrink_ring ds start) post w (drop (m * ds) (b ++ a)) (c + 1 + j - m) ds
    shrink_ring-Turned p l = elim (Bool-cases (leb m j)) [
      | inl h ↦ shrink_behind (j - m) (ground arith) p
      | inr h ↦ shrink_around (m - j) (c + j - m) (ground arith) (ground arith) (ground arith)
    ]

    pub grow_ring-Turned :
        (nan : V)
        → Turned
            (grow_ring nan m ds start)
            post
            w
            (replicate (m * ds) nan ++ (b ++ a))
            (c + 1 + j + m)
            ds
    unfolding grow_ring
    grow_ring-Turned nan = record {
      up_to = a;
      behind = replicate (m * ds) nan ++ b;
      ring = record { row_cnt = c + 1 + j + m; cur_row = c };
      left = m;
      unread = b ++ post;
      put_down = (w ++ a) ++ padding;
      stands = (nan, grown);
      joined =
          append_assoc (w ++ a) padding (b ++ post)
          ∙ append_assoc w a (padding ++ (b ++ post))
          ∙ ap (λ (v : List V). w ++ (a ++ v)) (sym (append_assoc padding b post));
      in_order = append_assoc padding b a;
      rows = refl;
      measured = ea;
    }
      where
        padding : List V
        padding = replicate (m * ds) nan

        old_ring : Ring
        old_ring = record { row_cnt = c + 1 + j; cur_row = c }

        widened : Files V → Files V
        widened u = record u { ring = record u.ring { row_cnt = u.ring.row_cnt + m } }

        grown :
            grow_ring nan m ds start
            ≡ at
                (b ++ post)
                ((w ++ a) ++ padding)
                nan
                (record { row_cnt = c + 1 + j + m; cur_row = c })
                m
        grown =
            ap (λ (t : Files V). widened (pad (m * ds) (record t { buffer = nan })))
              (copy_lem a (b ++ post) w f old_ring m ((c + 1) * ds) (sym ea)).1
            ∙ ap widened (pad_lem (m * ds) (b ++ post) (w ++ a) nan old_ring m)
