-- ===== src/Daemon/Cache/Replay.antt =====
-- What a replay of the journal of rrdtool-1.4.5/src/rrd_daemon.c restores after a crash, and what
-- it does not.
use mathlib.Core.Path.{subst}
use administracion_servicios.Prelude.{
  ℕ, ◌+◌, ◌≤◌, ◌≡◌, refl, sym, Bool, true, false, Option, none, some, List, [], ◌∷◌, ◌++◌,
  if◌then◌else◌, length,
}
use administracion_servicios.Protocol.{buffer_get_field}
use administracion_servicios.Daemon.Command.{same_text}
use administracion_servicios.Daemon.Connection.{cmd_max}
use administracion_servicios.Daemon.Access.{Config}
use administracion_servicios.Daemon.Cache.{
  Item, Entry, wrote_out, Cache, Env, take_values, note_written, remove_idle, wipe_found,
  handle_request_update, handle_request_forget, handle_request_wrote, replay_entry, journal_replay,
}
use administracion_servicios.Daemon.Cache.Local.{same_text_refl, names, wiped}
use administracion_servicios.Daemon.Cache.Follows.{empty, RereadsIf, Follows}

-- the sections of a running daemon that change the cache or the journal: the handlers, the two parts
-- of `queue_thread_main` before and behind the write of a file, and the removal of an idle file
pub data Event : Type 0 where
  update forget take_out note remove : List ℕ → Event

module _ (env : Env) (config : Config) where
  abbrev pub happen : Event → Cache → Cache
  happen (update buffer) c = (handle_request_update env config false buffer c).0
  happen (forget buffer) c = (handle_request_forget env config false buffer c).0
  happen (take_out file) c = take_values env file c
  happen (note file) c = note_written env file c
  happen (remove file) c = remove_idle env file c

  abbrev pub run_events : List Event → Cache → Cache
  run_events [] c = c
  run_events (e ∷ l) c = run_events l (happen e c)

  journal_replay-snoc :
      (l : List Entry) (e : Entry) (c : Cache)
      → journal_replay env config (l ++ (e ∷ [])) c
        ≡ replay_entry env config e (journal_replay env config l c)
  unfolding journal_replay
  journal_replay-snoc [] e c = refl
  journal_replay-snoc (d ∷ l) e c = journal_replay-snoc l e (replay_entry env config d c)

  module _ (f : List ℕ) where
    -- whether the values of the file have been taken out and are not yet noted as written
    abbrev pub begins : Bool → Event → Bool
    begins w (take_out file) = if same_text file f then true else w
    begins w (note file) = if same_text file f then false else w
    begins w _ = w

    abbrev pub writing : Bool → List Event → Bool
    writing w [] = w
    writing w (e ∷ l) = writing (begins w e) l

    -- While its values are being written, no request comes for the file, and only then is it noted
    -- as written; it is not removed as idle. The lines of the journal fit the buffers `orig_buf` and
    -- `entry`, and a path to forget is one that is read back as it stands.
    abbrev pub Allowed : Bool → Event → Type 0
    Allowed w (update buffer) =
        (length buffer + 8 ≤ cmd_max)
        × (w ≡ true → names config f (buffer_get_field buffer) ≡ false)
    Allowed w (forget buffer) =
        (length buffer + 8 ≤ cmd_max)
        × RereadsIf config (buffer_get_field buffer)
        × (w ≡ true → names config f (buffer_get_field buffer) ≡ false)
    Allowed w (take_out file) = Unit {0}
    Allowed w (note file) = same_text file f ≡ true → w ≡ true
    Allowed w (remove file) = same_text file f ≡ false

    abbrev pub AllAllowed : Bool → List Event → Type 0
    AllAllowed w [] = Unit {0}
    AllAllowed w (e ∷ l) = Allowed w e × AllAllowed (begins w e) l

    abbrev pub restored : Cache → Option Item
    restored c = (journal_replay env config c.journal empty).cache_tree f

    -- The replay gives the file its item, or while that is being written, one that differs in values.
    abbrev pub Restores : Bool → Cache → Type 0
    Restores false c = restored c ≡ c.cache_tree f
    Restores true c = wiped (restored c) ≡ c.cache_tree f

  -- No values wait for the file.
  abbrev pub NoneWait : Option Item → Type 0
  NoneWait none = Unit {0}
  NoneWait (some ci) = ci.values ≡ []

  wipe_found-NoneWait :
      (file : List ℕ) (c : Cache) (o : Option Item)
      → c.cache_tree file ≡ o
      → NoneWait ((wipe_found env file c o).cache_tree file)
  wipe_found-NoneWait file c none e = rw e tt
  wipe_found-NoneWait file c (some ci) e = rw (same_text_refl file) refl

  -- In whatever state values are waiting for a file when it is noted as written, those that have
  -- come in since its values were taken out for the write among them: they go on waiting, but a
  -- replay of the journal after a crash has no values for the file.
  pub note_written-forgets :
      (file : List ℕ) (c : Cache) (ci : Item)
      → c.cache_tree file ≡ some ci
      → ((note_written env file c).cache_tree file ≡ some ci)
        × NoneWait
            ((journal_replay env config (note_written env file c).journal empty).cache_tree file)
  unfolding replay_entry handle_request_wrote
  note_written-forgets file c ci e =
      let r = journal_replay env config c.journal empty in
      (
        e,
        subst (λ (x : Cache). NoneWait (x.cache_tree file))
            (sym (journal_replay-snoc c.journal (wrote_out file) empty))
            (wipe_found-NoneWait file r (r.cache_tree file) refl),
      )
