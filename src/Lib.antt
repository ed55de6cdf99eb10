-- ===== src/Lib.antt =====
-- Karabiner: the kernel extension that remaps keys, modifiers and pointing buttons of macOS.
--
-- Hardware events come in through `EventInputQueue`. There bouncing events are removed, and events of
-- keys with a __BlockUntilKeyUp__ rule are held back. What is fired goes through the remapping rules,
-- which read and change the status of modifiers (`FlagStatus`) and buttons (`ButtonStatus`), and on to
-- `EventOutputQueue` and to `KeyboardRepeat`. The rules are loaded from a vector of words that the
-- compiler of private.xml writes (`RemapClass`), and filters (`RemapFilter`) say when they apply. Keys
-- that the hardware sends while fn is held are normalized on the way in and restored on the way out.
--
-- The modules and the files under src/core/kext that they model:
--   Base: native numbers, integers, lists and binary digits that the others share.
--   ModifierFlag, Flags: `ModifierFlag` and `Flags` of KeyCode.hpp and KeyCode.cpp. Flags/OwnBit and
--     Flags/Laws are about their bits.
--   KeyCode: the values of the key codes that the source names.
--   KeyCodeModifierFlagPairs: Classes/KeyCodeModifierFlagPairs.hpp and .cpp.
--   StatusMessage: the status messages of Classes/CommonData.cpp, and Classes/ModifierName.cpp.
--   FlagStatus: Classes/FlagStatus.hpp and .cpp. FlagStatus/Counter is `FlagStatus::Item`,
--     FlagStatus/Loop the loops over the items, FlagStatus/Message `updateStatusMessage`,
--     FlagStatus/ScopedSetter `ScopedSetter`. The children Balance, Query, Invariant and Notify, and
--     ScopedSetter/Restore and ScopedSetter/Sums, hold what is proved. ScopedSetter/Scope lists what a
--     scope may do.
--   Buttons, ButtonStatus: `Buttons` of KeyCode.hpp, Classes/ButtonStatus.hpp and .cpp.
--   EventType, FnKeyHack: `EventType::isKeyDownOrModifierDown`, `KeyCode::normalizeKey` and
--     `KeyCode::reverseNormalizeKey` of KeyCode.cpp.
--   Params, FromEvent: Classes/Params.hpp, Classes/FromEvent.hpp and .cpp.
--   PressingPhysicalKeys: Classes/PressingPhysicalKeys.cpp.
--   EventInputQueue: Classes/EventInputQueue.hpp and .cpp; Bouncing is a loop of
--     `fire_timer_callback`, BlockUntilKeyUp is `BlockUntilKeyUpHandler` with the turn of
--     `fire_timer_callback` that calls it, BlockUntilKeyUp/Runs its runs, Pointer is
--     `push_RelativePointerEventCallback`.
--   KeyboardRepeat: Classes/KeyboardRepeat.hpp and .cpp.
--   DeltaBuffer: Classes/DeltaBuffer.hpp.
--   Direction: `getScrollWheelFromDelta` and `getPointingRelativeFromDelta` of KeyCode.hpp.
--   Bridge: the constants of src/bridge/include/bridge.h that kernel and user space share.
--   StrlcpyUtf8: src/lib/strlcpy_utf8/strlcpy_utf8.hpp.
--   LastKeys: Classes/LastPressedPhysicalKey.cpp, LastReleasedPhysicalKey.cpp and LastSentEvent.cpp.
--   EventOutputQueue: Classes/EventOutputQueue.hpp and .cpp, and Classes/PressDownKeys.cpp.
--     FireModifiers, FireKey and FirePointer are the `Fire` classes, Timer is `fire_timer_callback`.
--   RemapFilter: the classes of RemapFilter/*.hpp and their factory.
--   RemapClass: the constructor of RemapClass.cpp with RemapFunc/RemapFuncFactory.hpp. Its children
--     are Manager, the loading and the configuration of `RemapClassManager`; Rules, `RemapClass::Item`
--     and `RemapClass::ActiveItems`; Rules/Loops, the loops over the rules; and Refresh,
--     `refresh_timer_callback`.
--   RemapFunc: RemapFunc/common/CancelEventOutputQueueItemsHelper.hpp, RemapFunc/DropAllKeys.cpp and
--     RemapFunc/DropKeyAfterRemap.cpp.
--   VirtualKey: VirtualKey/VK_LOCK.cpp, VirtualKey/VK_STICKY.cpp and VirtualKey/VK_LAZY.cpp.
--   Tests: the theorems at concrete inputs.
--
-- A class is a record or the list of its items, and a static member is an argument and a result. An
-- `int` counter is an integer without bounds: the counters count keys that are held. A word of flags or
-- buttons is a number, and its complement is taken on 32 bits. The id of `KeyboardRepeat` and the
-- interval between bouncing events wrap around as in the source. The value of an enumerated constant is
-- that of src/bridge/generator/keycode/data.
--
-- Four loops run on fuel: `PressingFromEvents::erase_all`, the `retry` loop on bouncing events, that
-- of `strlcpy` and that of the constructor of `RemapClass`. Each turn takes an entry away or goes on by
-- a byte or a word, so a turn for each and one or two more are enough, as is shown for all four. The
-- memory that the constructor reads is a list of words, and a read behind its end is a fault, for which
-- none stands.
--
-- Arguments stand for what is outside: the clock, the settings of the configuration, the table of
-- modifiers where it may have been extended, and the question to the enabled rules whether an event is
-- one of __BlockUntilKeyUp__. A timer is the timeout that it is armed with, and what is sent to user
-- space or fired is a list. Runs of the input queue take arrivals, turns of the timer and timeouts of the
-- blocking in any order. A turn removes bouncing events if it finds the setting on, and what the rules
-- for simultaneous key presses make of the queue is an argument of each turn, like its settings and the
-- enabled rules.
--
-- For the rules the functions of their processors are arguments, and for the output queue the handling
-- of virtual keys and the devices. A pointer to a rule is the config index of its class and its place
-- among the items.
--
-- Not modelled: the other processors (RemapFunc) and virtual keys, the linked list (a `List` is the
-- sequence of its items), the hooked devices and the glue to IOKit, the compiler of private.xml, the
-- server and the user interface.
pub mod Base
pub mod ModifierFlag
pub mod KeyCode
pub mod KeyCodeModifierFlagPairs
pub mod Flags
pub mod StatusMessage
pub mod FlagStatus
pub mod Buttons
pub mod EventType
pub mod FnKeyHack
pub mod Params
pub mod FromEvent
pub mod EventInputQueue
pub mod KeyboardRepeat
pub mod DeltaBuffer
pub mod Direction
pub mod PressingPhysicalKeys
pub mod Tests
pub mod Bridge
pub mod StrlcpyUtf8
pub mod RemapFilter
pub mod RemapClass
pub mod LastKeys
pub mod EventOutputQueue
pub mod ButtonStatus
pub mod RemapFunc
pub mod VirtualKey
