-- ===== src/EventInputQueue.antt =====
-- `EventInputQueue` of core/kext/Classes/EventInputQueue.hpp and EventInputQueue.cpp: the queue of
-- hardware events, the removal of bouncing events, and the handler that holds events back.
-- A `List` of the source is the list of its items from front to back.
pub mod BlockUntilKeyUp
pub mod Bouncing
pub mod Pointer
use karabiner_cn.Base.{ℕ, Bool, true, false, List, [], ◌∷◌, ◌++◌, if◌then◌else◌}
use karabiner_cn.Params.{ParamsBase, is_repeat}

-- `DeviceIdentifier` of core/kext/KeyCode.hpp.
pub record DeviceIdentifier : Type 0 where
  pub vendor : ℕ
  pub product : ℕ
  pub location : ℕ

-- `Item::EnqueuedFrom`.
pub data EnqueuedFrom : Type 0 where
  from_hardware from_blockedqueue : EnqueuedFrom

-- `Item`. The weak pointer is its pointer and its id, and the interval checker is the moment at
-- which it began.
pub record Item : Type 0 where
  pub params : ParamsBase
  pub retain_flag_status_temporary_count : Bool
  pub device_identifier : DeviceIdentifier
  pub device_weak_pointer : ℕ × ℕ
  pub ic : ℕ
  pub is_simultaneous_key_presses_target : Bool
  pub enqueued_from : EnqueuedFrom

-- The constructor of `Item`, at the moment `now`.
unfoldable pub make_item : ParamsBase → Bool → DeviceIdentifier → ℕ × ℕ → ℕ → Item
make_item p r di device now = record {
  params = p;
  retain_flag_status_temporary_count = r;
  device_identifier = di;
  device_weak_pointer = device;
  ic = now;
  is_simultaneous_key_presses_target = true;
  enqueued_from = from_hardware;
}

-- `enqueue_`.
unfoldable pub enqueue :
    ParamsBase → Bool → DeviceIdentifier → ℕ × ℕ → Bool → Bool → ℕ → List Item → List Item
unfolding is_repeat make_item
enqueue p retain di device push_back target now queue =
    let item = record (make_item p retain di device now) {
      is_simultaneous_key_presses_target = target;
    } in
    if is_repeat p then queue else if push_back then queue ++ (item ∷ []) else item ∷ queue
