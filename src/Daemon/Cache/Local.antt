-- ===== src/Daemon/Cache/Local.antt =====
-- What the requests of rrdtool-1.4.5/src/rrd_daemon.c and the entries of the journal do to the item of
-- one file, which is a matter of that item alone.
use mathlib.Core.Path.{subst}
use administracion_servicios.Prelude.{
  ℕ, ◌≡◌, refl, ◌∙◌, ap, sym, inl, inr, Bool, true, false, not, ltb, ◌&&◌, Option, none, some, List,
  [], ◌∷◌, ◌++◌, ◌==◌, if◌then◌else◌, length, Bool-cases, eq_refl, arith,
}
use administracion_servicios.Protocol.{Cursor, buffer_get_field}
use administracion_servicios.Daemon.Command.{same_text}
use administracion_servicios.Daemon.Connection.{cmd_max}
use administracion_servicios.Daemon.Access.{Config, get_abs_path, check_file_access}
use administracion_servicios.Daemon.Cache.{
  Item, Entry, updated, forgotten, wrote_out, Cache, Env, Answer, field_of, rest_of, put,
  journal_write, wipe_ci_values, find_item, update_file, update_found, forget_file, forget_found,
  wipe_found, handle_request_update, update_request, handle_request_forget, handle_request_wrote,
  replay_entry, usage, remove_idle,
}

pub same_text_refl : (s : List ℕ) → same_text s s ≡ true
same_text_refl [] = refl
same_text_refl (c ∷ s) = rw (eq_refl c, same_text_refl s) refl

pub same_text-eq : (s t : List ℕ) → same_text s t ≡ true → s ≡ t
same_text-eq [] [] e = refl
same_text-eq [] (d ∷ t) e = cc
same_text-eq (c ∷ s) [] e = cc
same_text-eq (c ∷ s) (d ∷ t) e = elim (Bool-cases (c == d)) [
  | inl k ↦
      let g : c ≡ d = ground (arith, k) in
      let r : same_text s t ≡ true = rw k at e in rw (g, same_text-eq s t r) refl
  | inr k ↦ let r : false ≡ true = rw k at e in cc
]

-- whether a buffer names the file first
abbrev pub names : Config → List ℕ → Option Cursor → Bool
names config f none = false
names config f (some cur) = same_text (get_abs_path config (field_of cur)) f

-- the item without its values
abbrev pub wiped : Option Item → Option Item
wiped none = none
wiped (some ci) = some (wipe_ci_values ci)

module _ (env : Env) (config : Config) (f : List ℕ) where
  abbrev Alike : Cache → Cache → Type 0
  Alike c d = c.cache_tree f ≡ d.cache_tree f

  -- what the handlers go on to, by the field that they have found
  abbrev after_update : Bool → List ℕ → Cache → Option Cursor → Cache × Answer
  after_update replay buffer c none = (c, usage)
  after_update replay buffer c (some cur) =
      update_file env config replay buffer (get_abs_path config (field_of cur)) (rest_of cur) c

  abbrev after_forget : Bool → Cache → Option Cursor → Cache × Answer
  after_forget replay c none = (c, usage)
  after_forget replay c (some cur) =
      forget_file env config replay (get_abs_path config (field_of cur)) c

  put-other :
      (file : List ℕ) (ci : Option Item) (replay : Bool) (e : Entry) (c : Cache)
      → same_text file f ≡ false
      → Alike (put file ci (journal_write replay e c)) c
  put-other file ci true e c s = rw s refl
  put-other file ci false e c s = rw s refl

  put-same :
      (ci : Option Item) (replay : Bool) (e : Entry) (c : Cache)
      → (put f ci (journal_write replay e c)).cache_tree f ≡ ci
  put-same ci replay e c = rw (same_text_refl f) refl

  -- the file itself, whatever the cache holds of the others
  module _ (replay : Bool) (buffer rest : List ℕ) (c d : Cache) (h : Alike c d) where
    update_found-same :
        (o : Option Item)
        → Alike
            (update_found env config replay buffer f rest c o).0
            (update_found env config replay buffer f rest d o).0
    update_found-same none = h
    update_found-same (some ci) = put-same _ replay _ c ∙ sym (put-same _ replay _ d)

    update_file-same :
        Alike
          (update_file env config replay buffer f rest c).0
          (update_file env config replay buffer f rest d).0
    update_file-same = elim (Bool-cases (check_file_access config replay f)) [
      | inl e ↦ rw (e, h) (update_found-same (find_item env config replay f (d.cache_tree f)))
      | inr e ↦ rw e h
    ]

  -- another file
  module _ (replay : Bool) (file : List ℕ) (s : same_text file f ≡ false) where
    update_found-other :
        (buffer rest : List ℕ) (c : Cache) (o : Option Item)
        → Alike (update_found env config replay buffer file rest c o).0 c
    update_found-other buffer rest c none = refl
    update_found-other buffer rest c (some ci) = put-other file _ replay (updated buffer) c s

    update_file-other :
        (buffer rest : List ℕ) (c : Cache)
        → Alike (update_file env config replay buffer file rest c).0 c
    update_file-other buffer rest c = elim (Bool-cases (check_file_access config replay file)) [
      | inl e ↦ rw e (update_found-other buffer rest c _)
      | inr e ↦ rw e refl
    ]

    pub forget_found-other :
        (c : Cache) (o : Option Item) → Alike (forget_found env config replay file c o).0 c
    forget_found-other c none = refl
    forget_found-other c (some ci) = forgotten-other replay
      where
        forgotten-other :
            (r : Bool)
            → (journal_write r (forgotten file) (put file none c)).cache_tree f ≡ c.cache_tree f
        forgotten-other true = rw s refl
        forgotten-other false = rw s refl

    forget_file-other : (c : Cache) → Alike (forget_file env config replay file c).0 c
    forget_file-other c = elim (Bool-cases (check_file_access config replay file)) [
      | inl e ↦ rw e (forget_found-other c (c.cache_tree file))
      | inr e ↦ rw e refl
    ]

  module _ (replay : Bool) where
    forget_found-same :
        (c : Cache) (o : Option Item)
        → c.cache_tree f ≡ o
        → (forget_found env config replay f c o).0.cache_tree f ≡ none
    forget_found-same c none e = e
    forget_found-same c (some ci) e = gone_for replay
      where
        gone_for : (r : Bool) → (journal_write r (forgotten f) (put f none c)).cache_tree f ≡ none
        gone_for true = rw (same_text_refl f) refl
        gone_for false = rw (same_text_refl f) refl

    forget_file-same :
        (c d : Cache)
        → Alike c d
        → Alike (forget_file env config replay f c).0 (forget_file env config replay f d).0
    forget_file-same c d h = elim (Bool-cases (check_file_access config replay f)) [
      | inl e ↦ rw e (
          forget_found-same c (c.cache_tree f) refl
          ∙ sym (forget_found-same d (d.cache_tree f) refl))
      | inr e ↦ rw e h
    ]

    update_file-Alike :
        (buffer file rest : List ℕ) (c d : Cache)
        → Alike c d
        → Alike
            (update_file env config replay buffer file rest c).0
            (update_file env config replay buffer file rest d).0
    update_file-Alike buffer file rest c d h = elim (Bool-cases (same_text file f)) [
      | inl s ↦
          subst
            (λ (g : List ℕ).
              Alike (update_file env config replay buffer g rest c).0
                (update_file env config replay buffer g rest d).0)
            (sym (same_text-eq file f s)) (update_file-same replay buffer rest c d h)
      | inr s ↦
          update_file-other replay file s buffer rest c
          ∙ h
          ∙ sym (update_file-other replay file s buffer rest d)
    ]

    forget_file-Alike :
        (file : List ℕ) (c d : Cache)
        → Alike c d
        → Alike (forget_file env config replay file c).0 (forget_file env config replay file d).0
    forget_file-Alike file c d h = elim (Bool-cases (same_text file f)) [
      | inl s ↦
          subst
            (λ (g : List ℕ).
              Alike (forget_file env config replay g c).0 (forget_file env config replay g d).0)
            (sym (same_text-eq file f s)) (forget_file-same c d h)
      | inr s ↦ forget_file-other replay file s c ∙ h ∙ sym (forget_file-other replay file s d)
    ]

    pub update-Alike :
        (buffer : List ℕ) (c d : Cache)
        → Alike c d
        → Alike
            (handle_request_update env config replay buffer c).0
            (handle_request_update env config replay buffer d).0
    unfolding handle_request_update update_request
    update-Alike buffer c d h = elim (Bool-cases (not replay && ltb cmd_max (length buffer))) [
      | inl e ↦ rw e h
      | inr e ↦ rw e (go (buffer_get_field buffer))
    ]
      where
        go :
            (o : Option Cursor)
            → Alike (after_update replay buffer c o).0 (after_update replay buffer d o).0
        go none = h
        go (some cur) =
            update_file-Alike buffer (get_abs_path config (field_of cur)) (rest_of cur) c d h

    pub forget-Alike :
        (buffer : List ℕ) (c d : Cache)
        → Alike c d
        → Alike
            (handle_request_forget env config replay buffer c).0
            (handle_request_forget env config replay buffer d).0
    unfolding handle_request_forget
    forget-Alike buffer c d h = go (buffer_get_field buffer)
      where
        go : (o : Option Cursor) → Alike (after_forget replay c o).0 (after_forget replay d o).0
        go none = h
        go (some cur) = forget_file-Alike (get_abs_path config (field_of cur)) c d h

    pub update-other :
        (buffer : List ℕ) (c : Cache)
        → names config f (buffer_get_field buffer) ≡ false
        → Alike (handle_request_update env config replay buffer c).0 c
    unfolding handle_request_update update_request
    update-other buffer c n = elim (Bool-cases (not replay && ltb cmd_max (length buffer))) [
      | inl e ↦ rw e refl
      | inr e ↦ rw e (go (buffer_get_field buffer) n)
    ]
      where
        go :
            (o : Option Cursor)
            → names config f o ≡ false
            → Alike (after_update replay buffer c o).0 c
        go none n = refl
        go (some cur) n =
            update_file-other replay (get_abs_path config (field_of cur)) n buffer (rest_of cur) c

    pub forget-other :
        (buffer : List ℕ) (c : Cache)
        → names config f (buffer_get_field buffer) ≡ false
        → Alike (handle_request_forget env config replay buffer c).0 c
    unfolding handle_request_forget
    forget-other buffer c n = go (buffer_get_field buffer) n
      where
        go : (o : Option Cursor) → names config f o ≡ false → Alike (after_forget replay c o).0 c
        go none n = refl
        go (some cur) n = forget_file-other replay (get_abs_path config (field_of cur)) n c

  wipe-same :
      (c : Cache) → (wipe_found env f c (c.cache_tree f)).cache_tree f ≡ wiped (c.cache_tree f)
  wipe-same c = go (c.cache_tree f) refl
    where
      go : (o : Option Item) → c.cache_tree f ≡ o → (wipe_found env f c o).cache_tree f ≡ wiped o
      go none e = e
      go (some ci) e = rw (same_text_refl f) refl

  pub wipe-other :
      (file : List ℕ) (c : Cache)
      → same_text file f ≡ false
      → Alike (wipe_found env file c (c.cache_tree file)) c
  wipe-other file c s = go (c.cache_tree file)
    where
      go : (o : Option Item) → Alike (wipe_found env file c o) c
      go none = refl
      go (some ci) = rw s refl

  pub wipe-named :
      (file : List ℕ) (c : Cache)
      → same_text file f ≡ true
      → (wipe_found env file c (c.cache_tree file)).cache_tree f ≡ wiped (c.cache_tree f)
  wipe-named file c s =
      subst
        (λ (g : List ℕ).
          (wipe_found env g c (c.cache_tree g)).cache_tree f ≡ wiped (c.cache_tree f))
        (sym (same_text-eq file f s)) (wipe-same c)

  wipe-Alike :
      (file : List ℕ) (c d : Cache)
      → Alike c d
      → Alike
          (wipe_found env file c (c.cache_tree file))
          (wipe_found env file d (d.cache_tree file))
  wipe-Alike file c d h = elim (Bool-cases (same_text file f)) [
    | inl s ↦ wipe-named file c s ∙ ap wiped h ∙ sym (wipe-named file d s)
    | inr s ↦ wipe-other file c s ∙ h ∙ sym (wipe-other file d s)
  ]

  pub journal-wipe :
      (file : List ℕ) (c : Cache) → (wipe_found env file c (c.cache_tree file)).journal ≡ c.journal
  journal-wipe file c = go (c.cache_tree file)
    where
      go : (o : Option Item) → (wipe_found env file c o).journal ≡ c.journal
      go none = refl
      go (some ci) = refl

  abbrev removed : List ℕ → Cache → Option Item → Cache
  removed file c none = c
  removed file c (some ci) = if length ci.values == 0 then put file none c else c

  pub remove-other :
      (file : List ℕ) (c : Cache)
      → same_text file f ≡ false
      → Alike (remove_idle env file c) c × ((remove_idle env file c).journal ≡ c.journal)
  unfolding remove_idle
  remove-other file c s = go (c.cache_tree file)
    where
      go : (o : Option Item) → Alike (removed file c o) c × ((removed file c o).journal ≡ c.journal)
      go none = (refl, refl)
      go (some ci) = elim (Bool-cases (length ci.values == 0)) [
        | inl e ↦ rw e (rw s refl, refl)
        | inr e ↦ rw e (refl, refl)
      ]

  -- What an entry makes of the item of a file depends on that item alone.
  pub replay_entry-Alike :
      (e : Entry) (c d : Cache)
      → Alike c d
      → Alike (replay_entry env config e c) (replay_entry env config e d)
  unfolding replay_entry handle_request_wrote
  replay_entry-Alike (updated buffer) c d h = update-Alike true buffer c d h
  replay_entry-Alike (forgotten file) c d h = forget-Alike true (file ++ (0 ∷ [])) c d h
  replay_entry-Alike (wrote_out file) c d h = wipe-Alike file c d h
