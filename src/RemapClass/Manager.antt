-- ===== src/RemapClass/Manager.antt =====
-- `RemapClassManager` of core/kext/RemapClass.cpp: the classes that are loaded, and the setting of
-- their configuration.
pub mod Loaded
use karabiner_cn.Base.{
  ℕ, zero, suc, ◌+◌, ◌-◌, ◌*◌, ◌/◌, ◌%◌, Bool, true, false, not, ◌&&◌, ◌||◌, List, [], ◌∷◌, ◌++◌,
  Option, none, some, ◌==◌, ltb, leb, if◌then◌else◌, length, get_elem?, drop, replicate, all_of,
  map,
}
use karabiner_cn.KeyCodeModifierFlagPairs
use karabiner_cn.RemapClass.{RemapClass, Registry, State, construct, max_allocation_count}
use karabiner_cn.StatusMessage

-- `remapclasses_`, where a null pointer is none, and what the classes have registered.
pub record Manager : Type 0 where
  pub remapclasses : List (Option RemapClass)
  pub registry : Registry

-- `clear_remapclasses`. The count of allocated words is left alone.
unfoldable pub clear_remapclasses : Manager → Manager
clear_remapclasses m = record {
  remapclasses = [];
  registry = record {
    pairs = KeyCodeModifierFlagPairs.clear_virtual_modifiers;
    names = StatusMessage.clear_virtual_modifiers;
    vk_config = [];
    vk_defined_in_userspace = [];
    allocation_count = m.registry.allocation_count;
  };
}

-- `remapclasses_[i] = c`, for an index within the vector.
abbrev pub set {ℓ} : {A : Type ℓ} → List A → ℕ → A → List A
set [] i v = []
set (x ∷ xs) zero v = v ∷ xs
set (x ∷ xs) (suc i) v = x ∷ set xs i v

-- `MAX_CONFIG_COUNT`.
abbrev pub max_config_count : ℕ
max_config_count = 10000

-- How the loading goes: an error, from which it goes to `error`, or the classes so far.
pub data Loading : Type 0 where
  error : Manager → Loading
  loaded : Manager → Loading

-- The class whose size has been read, at `p`.
unfoldable pub load_class : List ℕ → ℕ → ℕ → ℕ → Manager → Option Loading
unfolding construct
load_class mem last p size m =
    if ltb last (p + size)
    then some (error m)
    else if size == 0
    then some (error m)
    else elim (get_elem? mem p) [
      | none ↦ none
      | some configindex ↦ elim (leb (length m.remapclasses) configindex) [
        | true ↦ some (error m)
        | false ↦ elim (construct mem (p + 1) (size - 1) configindex m.registry) [
          | none ↦ none
          | some (c, r) ↦ some (
              loaded
                (record { remapclasses = set m.remapclasses configindex (some c); registry = r }))
        ]
      ]
    ]

-- Step (2) of the loading: as many classes as the count says are read from `p` on.
unfoldable pub load_classes : ℕ → List ℕ → ℕ → ℕ → Manager → Option Loading
unfolding load_class
load_classes zero mem last p m = some (loaded m)
load_classes (suc n) mem last p m = elim (leb last p) [
  | true ↦ some (error m)
  | false ↦ elim (get_elem? mem p) [
    | none ↦ none
    | some size ↦ elim (load_class mem last (p + 1) size m) [
      | none ↦ none
      | some (error m') ↦ some (error m')
      | some (loaded m') ↦ load_classes n mem last (p + 1 + size) m'
    ]
  ]
]

abbrev pub is_some {ℓ} : {A : Type ℓ} → Option A → Bool
is_some none = false
is_some (some a) = true

-- Step (3), and what is answered: at `error` the classes are cleared.
unfoldable pub finish : Loading → Bool × Manager
unfolding clear_remapclasses
finish (error m) = (false, clear_remapclasses m)
finish (loaded m) =
    if all_of is_some m.remapclasses then (true, m) else (false, clear_remapclasses m)

-- Steps (1) to (3) for a count of classes that is in range.
unfoldable pub load_count : List ℕ → ℕ → ℕ → Manager → Option (Bool × Manager)
unfolding load_classes finish
load_count mem last count m =
    let started = record m {
      remapclasses = replicate count none;
      registry = record m.registry { allocation_count = 0 };
    } in
    elim (load_classes count mem last 1 started) [ none ↦ none | some l ↦ some (finish l) ]

-- `load_remapclasses_initialize_vector`, for a vector of `vector_size` bytes in the memory.
unfoldable pub load : List ℕ → ℕ → Manager → Option (Bool × Manager)
unfolding load_count clear_remapclasses
load mem vector_size m0 =
    let m = clear_remapclasses m0 in
    let size = vector_size / 4 in
    if not (vector_size % 4 == 0) || ltb size 2 || ltb max_allocation_count size
    then some (false, clear_remapclasses m)
    else elim (get_elem? mem 0) [
      | none ↦ none
      | some count ↦
          if ltb max_config_count count
          then some (false, clear_remapclasses m)
          else load_count mem size count m
    ]

-- The loop of `set_config` over the classes: a word that is not 0 enables.
unfoldable pub enable_all : List (Option RemapClass) → List ℕ → List (Option RemapClass)
enable_all [] ws = []
enable_all (c ∷ cs) [] = c ∷ cs
enable_all (none ∷ cs) (w ∷ ws) = none ∷ enable_all cs ws
enable_all (some c ∷ cs) (w ∷ ws) = some (record c { enabled = not (w == 0) }) ∷ enable_all cs ws

-- `set_config`, for the words of a vector of `size` bytes, of which the first `end` are the essential
-- configuration, which `Config` keeps. The timer for `refresh` is set behind it.
unfoldable pub set_config : ℕ → List ℕ → ℕ → Manager → Bool × Manager
unfolding enable_all
set_config end words size m =
    if not (size == (end + length m.remapclasses) * 4)
    then (false, m)
    else (true, record m { remapclasses = enable_all m.remapclasses (drop end words) })

-- `isEnabled`.
unfoldable pub is_enabled : Manager → ℕ → Bool
is_enabled m configindex = elim (get_elem? m.remapclasses configindex) [
  | none ↦ false
  | some none ↦ false
  | some (some c) ↦ c.enabled
]

-- `set_config_one` with `isEssentialConfig` off.
unfoldable pub set_config_one : ℕ → ℕ → Manager → Bool × Manager
set_config_one index value m = elim (get_elem? m.remapclasses index) [
  | none ↦ (false, m)
  | some none ↦ (false, m)
  | some (some c) ↦ (
    true,
    record m {
      remapclasses = set m.remapclasses index (some (record c { enabled = not (value == 0) }));
    },
  )
]
