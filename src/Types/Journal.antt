-- ===== src/Types/Journal.antt =====
-- crates/types/src/system/journal_storage.rs: the storage journal of one frame of a system
-- contract. A `BTreeMap` is a function to `Option`, a `BTreeSet` its characteristic function;
-- the `RefCell` of touched slots is state that a read returns.
pub mod Overlay
use fluentbase.Prelude.{
  ℕ, Bool, true, false, Option, none, some, List, [], ◌∷◌, ◌++◌, ◌==◌, if◌then◌else◌, ◌||◌,
}

abbrev pub Map : Type 0
Map = ℕ → Option ℕ

abbrev pub empty : Map
empty k = none

abbrev pub insert : ℕ → ℕ → Map → Map
insert k v m j = if k == j then some v else m j

abbrev pub remove : ℕ → Map → Map
remove k m j = if k == j then none else m j

abbrev pub SlotSet : Type 0
SlotSet = ℕ → Bool

abbrev pub add_slot : ℕ → SlotSet → SlotSet
add_slot k s j = k == j || s j

-- `topics` are 32-byte words, `payload` (the source's `data`) is bytes.
pub record JournalLog : Type 0 where
  pub topics : List ℕ
  pub payload : List ℕ

pub record JournalStorage : Type 0 where
  pub state : Map
  pub dirty_values : Map
  pub events : List JournalLog
  pub touched_slots : SlotSet

-- `JournalStorage::new`
abbrev pub new : Map → JournalStorage
new base = record { state = base; dirty_values = empty; events = []; touched_slots = λ k. false }

-- `self.dirty_values.get(slot).or_else(|| self.state.get(slot))`
unfoldable pub peek : JournalStorage → ℕ → Option ℕ
peek j k = elim (j.dirty_values k) [ some v ↦ some v | none ↦ j.state k ]

-- `self.touched_slots.borrow_mut().insert(*slot)`
unfoldable pub touch : ℕ → JournalStorage → JournalStorage
touch k j = record j { touched_slots = add_slot k j.touched_slots }

-- `JournalStorage::storage`: only a slot that has a value is marked as touched.
unfoldable pub storage : ℕ → JournalStorage → Option ℕ × JournalStorage
storage k j = elim (peek j k) [ some v ↦ (some v, touch k j) | none ↦ (none, j) ]

-- `self.state.get(&key).filter(|v| *v == &value).is_some()`
abbrev pub equals_base : JournalStorage → ℕ → ℕ → Bool
equals_base j k v = elim (j.state k) [ some b ↦ b == v | none ↦ false ]

-- `JournalStorage::write_storage`
unfoldable pub write_storage : ℕ → ℕ → JournalStorage → JournalStorage
write_storage k v j = record j {
  touched_slots = add_slot k j.touched_slots;
  dirty_values = if equals_base j k v then remove k j.dirty_values else insert k v j.dirty_values;
}

-- `JournalStorage::emit_log`
unfoldable pub emit_log : List ℕ → List ℕ → JournalStorage → JournalStorage
emit_log topics payload j = record j {
  events = j.events ++ (record { topics = topics; payload = payload } ∷ []);
}

-- `JournalStorage::into_diff`
unfoldable pub into_diff : JournalStorage → Map × List JournalLog × SlotSet
into_diff j = (j.dirty_values, j.events, j.touched_slots)

-- `JournalStorage::clear`
unfoldable pub clear : JournalStorage → JournalStorage
clear j = new empty
