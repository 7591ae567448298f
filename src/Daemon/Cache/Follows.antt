-- ===== src/Daemon/Cache/Follows.antt =====
-- What each request of rrdtool-1.4.5/src/rrd_daemon.c does to the items of the cache, and what the
-- replay of its entry in the journal does to them.
use mathlib.Core.Path.{subst}
use administracion_servicios.Prelude.{
  ℕ, ◌≡◌, refl, ◌∙◌, ap, sym, ltb, length, ◌⊎◌, inl, inr, Bool, true, false, Option, none, some,
  List, [], ◌∷◌, ◌++◌, Bool-cases, Option-cases, arith,
}
use administracion_servicios.Protocol.{Cursor, buffer_get_field}
use administracion_servicios.Daemon.Connection.{cmd_max}
use administracion_servicios.Daemon.Access.{Config, get_abs_path, check_file_access}
use administracion_servicios.Daemon.Cache.{
  Item, Entry, updated, forgotten, Cache, Env, field_of, rest_of, find_item, update_file,
  update_found, forget_file, forget_found, handle_request_update, update_request,
  handle_request_forget, replay_entry, Answer, usage,
}

abbrev pub empty : Cache
empty = record { cache_tree = λ _. none; journal = [] }

-- A path that the replay of a "forget" reads as it stands.
abbrev pub Rereads : Config → List ℕ → Type 0
Rereads config file =
    (cur : Cursor) × (buffer_get_field (file ++ (0 ∷ [])) ≡ some cur)
    × (get_abs_path config (field_of cur) ≡ file)

abbrev pub RereadsIf : Config → Option Cursor → Type 0
RereadsIf config none = Unit {0}
RereadsIf config (some cur) = Rereads config (get_abs_path config (field_of cur))

-- the tree alone
abbrev pub quiet : Cache → Cache
quiet c = record { cache_tree = c.cache_tree; journal = [] }

module _ (env : Env) (config : Config) where
  -- Either nothing has changed, or the journal has the entry, whose replay does the same.
  abbrev pub Follows : Entry → Cache → Cache → Type 0
  Follows e c c' =
      (c' ≡ c)
      ⊎ ((c'.journal ≡ c.journal ++ (e ∷ [])) × (replay_entry env config e (quiet c) ≡ quiet c'))

  update_found-Follows :
      (buffer file rest : List ℕ) (c : Cache) (o : Option Item)
      → (replay_entry env config (updated buffer) (quiet c)
          ≡ (update_found env config true buffer file rest (quiet c) o).0)
      → Follows (updated buffer) c (update_found env config false buffer file rest c o).0
  update_found-Follows buffer file rest c none h = inl refl
  update_found-Follows buffer file rest c (some ci) h = inr (refl, h)

  pub access_in_replay : (file : List ℕ) → check_file_access config true file ≡ true
  unfolding check_file_access
  access_in_replay file = ground arith

  module _ (replay : Bool) (buffer : List ℕ) (c : Cache) where
    pub update_none :
        buffer_get_field buffer ≡ none → update_request env config replay buffer c ≡ (c, usage)
    unfolding update_request
    update_none e = rw (e, update_request) refl

    pub update_some :
        (cur : Cursor)
        → buffer_get_field buffer ≡ some cur
        → update_request env config replay buffer c
          ≡ update_file env config replay buffer
              (get_abs_path config (field_of cur))
              (rest_of cur)
              c
    unfolding update_request
    update_some cur e = rw (e, update_request) refl

    pub forget_none :
        buffer_get_field buffer ≡ none
        → handle_request_forget env config replay buffer c ≡ (c, usage)
    unfolding handle_request_forget
    forget_none e = rw (e, handle_request_forget) refl

    pub forget_some :
        (cur : Cursor)
        → buffer_get_field buffer ≡ some cur
        → handle_request_forget env config replay buffer c
          ≡ forget_file env config replay (get_abs_path config (field_of cur)) c
    unfolding handle_request_forget
    forget_some cur e = rw (e, handle_request_forget) refl

  pub update_file-replay :
      (buffer file rest : List ℕ) (c : Cache)
      → update_file env config true buffer file rest c
        ≡ update_found env config true buffer file rest c
            (find_item env config true file (c.cache_tree file))
  update_file-replay buffer file rest c = rw (access_in_replay file) refl

  update_file-Follows :
      (buffer file rest : List ℕ) (c : Cache)
      → (replay_entry env config (updated buffer) (quiet c)
          ≡ (update_file env config true buffer file rest (quiet c)).0)
      → Follows (updated buffer) c (update_file env config false buffer file rest c).0
  update_file-Follows buffer file rest c h =
      elim (Bool-cases (check_file_access config false file)) [
        | inl e ↦ rw e (
            update_found-Follows buffer file rest c _ (
              h ∙ ap (λ (x : Cache × Answer). x.0) (update_file-replay buffer file rest (quiet c))))
        | inr e ↦ rw e (inl refl)
      ]

  update_request-Follows :
      (buffer : List ℕ) (c : Cache)
      → Follows (updated buffer) c (update_request env config false buffer c).0
  update_request-Follows buffer c = elim (Option-cases (buffer_get_field buffer)) [
    | inl e ↦
        subst (λ (x : Cache × Answer). Follows (updated buffer) c x.0)
          (sym (update_none false buffer c e)) (inl refl)
    | inr (cur, e) ↦
        subst (λ (x : Cache × Answer). Follows (updated buffer) c x.0)
          (sym (update_some false buffer c cur e))
          (update_file-Follows buffer _ _ c (replayed cur e))
  ]
    where
      replayed :
          (cur : Cursor)
          → buffer_get_field buffer ≡ some cur
          → replay_entry env config (updated buffer) (quiet c)
            ≡ (update_file env config true buffer
                (get_abs_path config (field_of cur))
                (rest_of cur)
                (quiet c)).0
      replayed cur e =
          unfold replay_entry in
          unfold handle_request_update in
          ap (λ (x : Cache × Answer). x.0) (update_some true buffer (quiet c) cur e)

  pub update-Follows :
      (buffer : List ℕ) (c : Cache)
      → Follows (updated buffer) c (handle_request_update env config false buffer c).0
  unfolding handle_request_update
  update-Follows buffer c = elim (Bool-cases (ltb cmd_max (length buffer))) [
    | inl e ↦ rw e (inl refl)
    | inr e ↦ rw e (update_request-Follows buffer c)
  ]

  forget_found-Follows :
      (file : List ℕ) (c : Cache) (o : Option Item)
      → (replay_entry env config (forgotten file) (quiet c)
          ≡ (forget_found env config true file (quiet c) o).0)
      → Follows (forgotten file) c (forget_found env config false file c o).0
  forget_found-Follows file c none h = inl refl
  forget_found-Follows file c (some ci) h = inr (refl, h)

  forget_file-replay :
      (file : List ℕ) (c : Cache)
      → forget_file env config true file c ≡ forget_found env config true file c (c.cache_tree file)
  forget_file-replay file c = rw (access_in_replay file) refl

  pub replay-forgotten :
      (file : List ℕ) (c : Cache)
      → Rereads config file
      → replay_entry env config (forgotten file) c
        ≡ (forget_found env config true file c (c.cache_tree file)).0
  unfolding replay_entry
  replay-forgotten file c (cur, e, same) =
      ap (λ (x : Cache × Answer). x.0)
        (forget_some true (file ++ (0 ∷ [])) c cur e
          ∙ ap (λ (f : List ℕ). forget_file env config true f c) same
          ∙ forget_file-replay file c)

  forget_file-Follows :
      (file : List ℕ) (c : Cache)
      → Rereads config file
      → Follows (forgotten file) c (forget_file env config false file c).0
  forget_file-Follows file c r = elim (Bool-cases (check_file_access config false file)) [
    | inl e ↦
        rw e (forget_found-Follows file c (c.cache_tree file) (replay-forgotten file (quiet c) r))
    | inr e ↦ rw e (inl refl)
  ]

  -- the entry of a "forget"
  abbrev pub entry_for : Option Cursor → Entry
  entry_for none = forgotten []
  entry_for (some cur) = forgotten (get_abs_path config (field_of cur))

  pub forget-Follows :
      (buffer : List ℕ) (c : Cache) (o : Option Cursor)
      → buffer_get_field buffer ≡ o
      → RereadsIf config o
      → Follows (entry_for o) c (handle_request_forget env config false buffer c).0
  forget-Follows buffer c none e r =
      subst (λ (x : Cache × Answer). Follows (entry_for none) c x.0)
        (sym (forget_none false buffer c e)) (inl refl)
  forget-Follows buffer c (some cur) e r =
      subst (λ (x : Cache × Answer). Follows (entry_for (some cur)) c x.0)
        (sym (forget_some false buffer c cur e)) (forget_file-Follows _ c r)
