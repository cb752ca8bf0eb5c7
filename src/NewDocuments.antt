-- ===== src/NewDocuments.antt =====
-- Which documents are new, frontend/src/lib/context/NewDocumentsContext.tsx: a set that is kept in the
-- session's storage, and the snapshot of it that the components read. The texts of the storage and
-- JSON are parameters; a storage that is not available throws at each call.
pub mod Laws
mod Tests
use papercrate.Base.{
  any, ℕ, String, Bool, true, false, List, [], ◌∷◌, ◌++◌, Option, none, some, ◌==◌, not,
  if◌then◌else◌, contains, unique, filter, ◌||◌, nat_eq,
}

pub data Event : Type 0 where
  mark_new : List String → Event
  clear_new : String → Event
  clear_all : Event
  subscribed unsubscribed : ℕ → Event

module _ {Text : Type 0} (stringify : List String → Text) (parse : Text → Option (List String))
    (is_blank : Text → Bool) where
  pub record Store : Type 0 where
    pub available : Bool
    -- the item of the storage
    pub item : Option Text
    pub snapshot : List String
    pub listeners : List ℕ
    -- the listeners that were called, oldest first
    pub calls : List ℕ

  unfoldable pub read_ids : Bool → Option Text → List String
  read_ids available none = []
  read_ids available (some raw) =
      if not available || is_blank raw
      then []
      else elim (parse raw) [ none ↦ [] | some ids ↦ unique [] ids ]

  unfoldable pub write_ids : List String → Store → Store
  write_ids [] s = if s.available then record s { item = none } else s
  write_ids (id ∷ ids) s =
      if s.available then record s { item = some (stringify (id ∷ ids)) } else s

  unfoldable pub notify : Store → Store
  unfolding read_ids
  notify s = record s { snapshot = read_ids s.available s.item; calls = s.calls ++ s.listeners }

  -- the module's state when it is loaded
  unfoldable pub initial : Bool → Option Text → Store
  unfolding read_ids
  initial available item = record {
    available = available;
    item = item;
    snapshot = read_ids available item;
    listeners = [];
    calls = [];
  }

  unfoldable pub step : Event → Store → Store
  unfolding read_ids write_ids notify
  step (mark_new []) s = s
  step (mark_new (id ∷ ids)) s =
      notify (write_ids (unique (read_ids s.available s.item) (id ∷ ids)) s)
  step (clear_new id) s =
      let current = read_ids s.available s.item in
      if contains id current then notify (write_ids (filter (λ k. not (k == id)) current) s) else s
  step clear_all s = notify (write_ids [] s)
  step (subscribed l) s =
      if any (nat_eq l) s.listeners then s else record s { listeners = s.listeners ++ l ∷ [] }
  step (unsubscribed l) s = record s { listeners = filter (λ k. not (nat_eq k l)) s.listeners }

  unfoldable pub run : List Event → Store → Store
  unfolding step
  run [] s = s
  run (e ∷ es) s = run es (step e s)

  -- `isNew`
  unfoldable pub is_new : String → Store → Bool
  is_new id s = contains id s.snapshot
