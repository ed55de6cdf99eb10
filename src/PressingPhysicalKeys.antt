-- ===== src/PressingPhysicalKeys.antt =====
-- `PressingPhysicalKeys` of core/kext/Classes/PressingPhysicalKeys.hpp and PressingPhysicalKeys.cpp:
-- the keys of a device that are physically down. An object is the list of its `FromEvent`s. The
-- setting general_allow_devices_multiple_same_key is an argument.
pub mod Laws
use karabiner_cn.Base.{
  ℕ, Bool, true, false, List, [], ◌∷◌, ◌++◌, Option, none, some, ◌==◌, if◌then◌else◌, length,
}
use karabiner_cn.FromEvent.{FromEvent, of_params, is_target_event}
use karabiner_cn.KeyCode
use karabiner_cn.Params.{ParamsBase, keyboard, iskeydown}

-- The hardware caps lock key, which is left out.
unfoldable pub is_capslock : ParamsBase → Bool
is_capslock (keyboard p) = p.key == KeyCode.capslock
is_capslock p = false

-- The loop for a key up.
unfoldable pub remove_target : Bool → ParamsBase → List FromEvent → List FromEvent
unfolding is_target_event
remove_target allow p [] = []
remove_target allow p (e ∷ es) =
    let rest = remove_target allow p es in
    if is_target_event e p then (if allow then es else rest) else e ∷ rest

unfoldable pub change : Bool → ParamsBase → Option Bool → List FromEvent → List FromEvent
unfolding is_capslock remove_target of_params
change allow p none es = es
change allow p (some is_down) es =
    if is_capslock p
    then es
    else if is_down
    then es ++ (of_params p ∷ [])
    else remove_target allow p es

unfoldable pub update : Bool → ParamsBase → List FromEvent → List FromEvent
unfolding change iskeydown
update allow p es = change allow p (iskeydown p) es

abbrev pub clear : List FromEvent → List FromEvent
clear es = []

abbrev pub empty : List FromEvent → Bool
empty es = length es == 0

abbrev pub count : List FromEvent → ℕ
count = length
