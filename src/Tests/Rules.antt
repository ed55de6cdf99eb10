-- ===== src/Tests/Rules.antt =====
-- Runs of the theorems on rules: how they are loaded, and which of them get an event.
use karabiner_cn.Base.{
  ℕ, ◌+◌, ◌≡◌, refl, Bool, true, false, not, List, [], ◌∷◌, ◌++◌, none, some, arith, if◌then◌else◌,
}
use karabiner_cn.Bridge
use karabiner_cn.RemapClass.{RemapClass, Item}
use karabiner_cn.RemapClass.Manager.{Manager, load}
use karabiner_cn.RemapClass.Manager.Loaded.{Answer, load_lem}
use karabiner_cn.RemapClass.Refresh.{State, nothing_collected, refresh_timer_callback}
use karabiner_cn.RemapClass.Refresh.Repeat.{refresh_timer_callback_repeats}
use karabiner_cn.RemapClass.Rules.{Functions, not_changed}
use karabiner_cn.RemapClass.Rules.Balance.{
  active_count, Call, Counted, count_calls, active_count-count_calls,
}
use karabiner_cn.RemapFilter.{Current}
use karabiner_cn.RemapFilter.Laws.{application, is_unknown, blocks, blocks-only}
use karabiner_cn.StrlcpyUtf8.{strlcpy}
use karabiner_cn.StrlcpyUtf8.Utf8.{one, two}
use karabiner_cn.StrlcpyUtf8.Whole.{concat, fitting, strlcpy-concat}
use karabiner_cn.Tests.{pairs, board, key_event, shift_items}

-- An `a` and an `é`, of which three bytes hold the first one and the terminator.
strlcpy-concat_example :
    strlcpy 3 (concat ((0x61 ∷ []) ∷ (0xc3 ∷ 0xa9 ∷ []) ∷ []))
    ≡ some (fitting 2 ((0x61 ∷ []) ∷ (0xc3 ∷ 0xa9 ∷ []) ∷ []))
unfolding strlcpy
strlcpy-concat_example = strlcpy-concat 3 ((0x61 ∷ []) ∷ (0xc3 ∷ 0xa9 ∷ []) ∷ []) (
  one 0x61 (omega arith),
  (two 0xc3 0xa9 (omega arith) (omega arith) (omega arith, omega arith), tt),
)

-- One class, with one item of two words.
abbrev words : List ℕ
words = 1 ∷ 4 ∷ 0 ∷ 2 ∷ Bridge.remaptype_passthrough ∷ 0 ∷ []

abbrev empty_manager : Manager
empty_manager = record {
  remapclasses = [];
  registry = record {
    pairs = pairs;
    names = [];
    vk_config = [];
    vk_defined_in_userspace = [];
    allocation_count = 0;
  };
}

load_lem_example :
    (r : Bool × Manager) × (load (words ++ (0 ∷ [])) 24 empty_manager ≡ some r)
    × Answer (words ++ (0 ∷ [])) r
load_lem_example = load_lem words 24 empty_manager (omega arith)

abbrev current : Current
current = record {
  workspace_app_ids = 4 ∷ [];
  workspace_window_name_ids = [];
  workspace_ui_element_role_id = 0;
  workspace_input_source_ids = [];
  device_identifier = record { vendor = 1; product = 2; location = 3 };
  last_pressed_physical_key = record { data_type = 0; value = 0; ic = 0 };
  last_released_physical_key = record { data_type = 0; value = 0; ic = 0 };
  last_sent = record { data_type = 0; value = 0; event_type = 0; ic = 0 };
  getmillisec = λ began. 9;
  flag_status = shift_items;
  is_enabled = λ i. true;
  pressing_physical_keys_count_all = 1;
}

-- The application 4, which is the current one.
blocks-only_example : blocks current ((Bridge.filtertype_application_not + 1) ∷ 4 ∷ []) ≡ (
    if is_unknown current application
    then false
    else not (blocks current (Bridge.filtertype_application_not ∷ 4 ∷ [])))
blocks-only_example = blocks-only current application (4 ∷ [])

-- A class without filters, with a status message.
abbrev item : Item
item = record {
  processor = some (record {
    type = Bridge.remaptype_passthrough;
    ignore_pass_through = false;
    added = [];
    autogen_id = 1;
  });
  filters = [];
}

abbrev class : RemapClass
class = record {
  items = item ∷ [];
  statusmessage = some (b'v' ∷ b'i' ∷ []);
  enabled = true;
  is_simultaneouskeypresses = false;
  configindex = 0;
}

-- Functions that handle everything, and count how often they are called.
abbrev functions : Functions ℕ
functions = record {
  current = λ s. current;
  enabled = λ i s. true;
  remap = λ id p isremapped s. (true, true, s + 1);
  remap_simultaneous_key_presses = λ id s. (not_changed, s);
  remap_set_keyboard_type = λ id k s. (k, s);
  remap_force_num_lock_on = λ id s. s;
  get_block_until_key_up_from_event = λ id s. none;
  cancels = λ id i s. (false, s);
}

abbrev call : Bool → Call ℕ
call is_down = record {
  functions = functions;
  id = (0, 0);
  item = item;
  pass_through = false;
  params = key_event 49 is_down;
  isremapped = false;
}

-- Two key downs and a key up.
abbrev calls : List (Call ℕ)
calls = call true ∷ call true ∷ call false ∷ []

abbrev not_counted : Counted ℕ
not_counted = record { active = []; outer = 0; downs = 0; ups = 0 }

active_count-count_calls_example :
    active_count (0, 0) (count_calls (0, 0) calls not_counted).active
      + (count_calls (0, 0) calls not_counted).ups
    ≡ 0 + (count_calls (0, 0) calls not_counted).downs
active_count-count_calls_example = active_count-count_calls (0, 0) calls not_counted 0 (omega arith)

abbrev not_refreshed : State
not_refreshed = record { collected = nothing_collected; lastmessage = []; board = board }

refresh_timer_callback_repeats_example :
    (r : State) × (refresh_timer_callback [] (some class ∷ []) not_refreshed ≡ some r)
    × (refresh_timer_callback [] (some class ∷ []) r ≡ some r)
unfolding refresh_timer_callback
refresh_timer_callback_repeats_example =
    refresh_timer_callback_repeats [] (some class ∷ []) not_refreshed refl
