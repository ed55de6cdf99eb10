-- ===== src/RemapClass/Manager/Loaded.antt =====
-- What `load_remapclasses_initialize_vector` of core/kext/RemapClass.cpp answers, for any words.
use karabiner_cn.Base.{
  ℕ, zero, suc, ◌+◌, ◌-◌, ◌*◌, ◌/◌, ◌%◌, ◌≤◌, ◌<◌, ◌≡◌, refl, sym, ap, ◌∙◌, Bool, true, false, not,
  ◌||◌, List, [], ◌∷◌, ◌++◌, Option, none, some, ◌==◌, ltb, leb, length, get_elem?, replicate,
  all_of, arith, Option-cases, Bool-cases, inl, inr, ◌⊎◌, length-append, length-replicate,
}
use karabiner_cn.Base.Returns.{Returns, Returns-bind, Returns-some, some-Returns}
use karabiner_cn.KeyCodeModifierFlagPairs
use karabiner_cn.StatusMessage
use karabiner_cn.RemapClass.{RemapClass, construct, max_allocation_count}
use karabiner_cn.RemapClass.Safety.{
  Terminated, get_elem?_total, construct_total, Terminated-of_zero,
}
use karabiner_cn.RemapClass.ConfigIndex.{construct-index}
use karabiner_cn.RemapClass.Manager.{
  Manager, clear_remapclasses, set, Loading, error, loaded, load_class, load_classes, is_some,
  finish, load_count, load, max_config_count,
}

-- The classes from index `i` on, each of which has been told its own index if it is there.
abbrev OwnIndex : ℕ → List (Option RemapClass) → Type 0
OwnIndex i [] = Unit
OwnIndex i (none ∷ cs) = OwnIndex (suc i) cs
OwnIndex i (some c ∷ cs) = (c.configindex ≡ i) × OwnIndex (suc i) cs

-- Every class is there.
abbrev pub AllLoaded : ℕ → List (Option RemapClass) → Type 0
AllLoaded i [] = Unit
AllLoaded i (none ∷ cs) = ⊥
AllLoaded i (some c ∷ cs) = (c.configindex ≡ i) × AllLoaded (suc i) cs

OwnIndex-replicate : (i n : ℕ) → OwnIndex i (replicate n none)
OwnIndex-replicate i zero = tt
OwnIndex-replicate i (suc n) = OwnIndex-replicate (suc i) n

OwnIndex-set :
    (i j : ℕ) (cs : List (Option RemapClass)) (c : RemapClass)
    → c.configindex ≡ i + j
    → OwnIndex i cs
    → OwnIndex i (set cs j (some c))
OwnIndex-set i j [] c e h = tt
OwnIndex-set i zero (none ∷ cs) c e h = (omega arith, h)
OwnIndex-set i zero (some d ∷ cs) c e h = (omega arith, h.1)
OwnIndex-set i (suc j) (none ∷ cs) c e h = OwnIndex-set (suc i) j cs c (omega arith) h
OwnIndex-set i (suc j) (some d ∷ cs) c e h = (h.0, OwnIndex-set (suc i) j cs c (omega arith) h.1)

length-set {ℓ} : {A : Type ℓ} (xs : List A) (j : ℕ) (v : A) → length (set xs j v) ≡ length xs
length-set [] j v = refl
length-set (x ∷ xs) zero v = refl
length-set (x ∷ xs) (suc j) v = ap suc (length-set xs j v)

AllLoaded-of_all :
    (i : ℕ) (cs : List (Option RemapClass))
    → OwnIndex i cs
    → all_of is_some cs ≡ true
    → AllLoaded i cs
AllLoaded-of_all i [] h e = tt
AllLoaded-of_all i (none ∷ cs) h e = cc
AllLoaded-of_all i (some c ∷ cs) h e = (h.0, AllLoaded-of_all (suc i) cs h.1 e)

-- Behind `clear_remapclasses`.
pub record IsCleared (m : Manager) : Type 0 where
  pub classes : m.remapclasses ≡ []
  pub pairs : m.registry.pairs ≡ KeyCodeModifierFlagPairs.clear_virtual_modifiers
  pub names : m.registry.names ≡ StatusMessage.clear_virtual_modifiers
  pub vk_config : m.registry.vk_config ≡ []
  pub vk_defined_in_userspace : m.registry.vk_defined_in_userspace ≡ []

clear-IsCleared : (m : Manager) → IsCleared (clear_remapclasses m)
unfolding clear_remapclasses
clear-IsCleared m = record {
  classes = refl;
  pairs = refl;
  names = refl;
  vk_config = refl;
  vk_defined_in_userspace = refl;
}

-- The state of the loop of step (2), for a count of classes.
abbrev IsLoading : ℕ → Loading → Type 0
IsLoading count (error m) = Unit
IsLoading count (loaded m) = (length m.remapclasses ≡ count) × OwnIndex 0 m.remapclasses

load_class-IsLoading :
    (mem : List ℕ) (last p size count : ℕ) (m : Manager) (l : Loading)
    → length m.remapclasses ≡ count
    → OwnIndex 0 m.remapclasses
    → load_class mem last p size m ≡ some l
    → IsLoading count l
unfolding load_class
load_class-IsLoading mem last p size count m (error m') n own e = tt
load_class-IsLoading mem last p size count m (loaded m') n own e =
    elim (Option-cases (get_elem? mem p)) [
      | inl x ↦ ground (arith, x)
      | inr (j, x) ↦ elim (Option-cases (construct mem (p + 1) (size - 1) j m.registry)) [
        | inl y ↦ ground (arith, x, y)
        | inr ((c, r), y) ↦ ground (
          arith,
          x,
          y,
          length-set m.remapclasses j (some c),
          OwnIndex-set 0 j m.remapclasses c
              (construct-index mem (p + 1) (size - 1) j m.registry y ∙ omega arith) own,
        )
      ]
    ]

load_class_total :
    (mem : List ℕ) (last p size : ℕ) (m : Manager)
    → Terminated mem last
    → last ≤ length mem
    → p ≤ last
    → Returns (load_class mem last p size m)
unfolding load_class
load_class_total mem last p size m t h le = elim (Bool-cases (ltb last (p + size) || size == 0)) [
  | inl wrong ↦ ground (arith, wrong)
  | inr right ↦
      let step =
        Returns-bind (get_elem? mem p) _ (get_elem?_total mem p (ground arith))
          λ j e. by_index j (Bool-cases (leb (length m.remapclasses) j)) (ground arith) in
      ground (arith, right, step)
]
  where
    by_index :
        (j : ℕ)
        → (leb (length m.remapclasses) j ≡ true) ⊎ (leb (length m.remapclasses) j ≡ false)
        → (0 < size) × (p + size ≤ last)
        → Returns (elim (leb (length m.remapclasses) j) [
          | true ↦ some (error m)
          | false ↦ elim (construct mem (p + 1) (size - 1) j m.registry) [
            | none ↦ none
            | some (c, r) ↦
                some
                  (loaded (record { remapclasses = set m.remapclasses j (some c); registry = r }))
          ]
        ])
    by_index j (inl wrong) fits = rw wrong (some-Returns (error m))
    by_index j (inr right) fits = rw right (
        Returns-bind (construct mem (p + 1) (size - 1) j m.registry) _
          (construct_total mem (p + 1) (size - 1) j m.registry (λ q hq. t q (omega arith))
            (omega arith))
          λ s e. some-Returns _)

load_classes_total :
    (n : ℕ) (mem : List ℕ) (last p : ℕ) (m : Manager)
    → Terminated mem last
    → last ≤ length mem
    → Returns (load_classes n mem last p m)
unfolding load_classes
load_classes_total zero mem last p m t h = some-Returns (loaded m)
load_classes_total (suc n) mem last p m t h = elim (Bool-cases (leb last p)) [
  | inl over ↦ ground (arith, over)
  | inr inside ↦
      let step = Returns-bind (get_elem? mem p) _ (get_elem?_total mem p (ground arith)) λ size e.
        next size (Returns-some _ (load_class_total mem last (p + 1) size m t h (ground arith)))
          (λ m'. load_classes_total n mem last (p + 1 + size) m' t h) in
      ground (arith, inside, step)
]
  where
    next :
        (size : ℕ)
        → (l : Loading) × (load_class mem last (p + 1) size m ≡ some l)
        → ((m' : Manager) → Returns (load_classes n mem last (p + 1 + size) m'))
        → Returns (elim (load_class mem last (p + 1) size m) [
          | none ↦ none
          | some (error m') ↦ some (error m')
          | some (loaded m') ↦ load_classes n mem last (p + 1 + size) m'
        ])
    next size (error m', e) rest = rw e (some-Returns (error m'))
    next size (loaded m', e) rest = rw e (rest m')

load_classes-IsLoading :
    (n : ℕ) (mem : List ℕ) (last p count : ℕ) (m : Manager) (l : Loading)
    → length m.remapclasses ≡ count
    → OwnIndex 0 m.remapclasses
    → load_classes n mem last p m ≡ some l
    → IsLoading count l
unfolding load_classes
load_classes-IsLoading n mem last p count m (error m') k own e = tt
load_classes-IsLoading zero mem last p count m (loaded m') k own e = ground (arith, k, own, e)
load_classes-IsLoading (suc n) mem last p count m (loaded m') k own e =
    elim (Option-cases (get_elem? mem p)) [
      | inl x ↦ ground (arith, x)
      | inr (size, x) ↦ elim (Option-cases (load_class mem last (p + 1) size m)) [
        | inl y ↦ ground (arith, x, y)
        | inr (error u, y) ↦ ground (arith, x, y)
        | inr (loaded u, y) ↦
            let step = load_class-IsLoading mem last (p + 1) size count m (loaded u) k own y in
            load_classes-IsLoading n mem last (p + 1 + size) count u (loaded m') step.0 step.1
              (ground (arith, x, y))
      ]
    ]

-- Either all classes are loaded, as many as the first word says, and each has its own index, or none
-- is, and nothing is registered.
abbrev pub Answer : List ℕ → Bool × Manager → Type 0
Answer mem (true, m) = (get_elem? mem 0 ≡ some (length m.remapclasses)) × AllLoaded 0 m.remapclasses
Answer mem (false, m) = IsCleared m

finish-Answer :
    (mem : List ℕ) (count : ℕ) (l : Loading)
    → get_elem? mem 0 ≡ some count
    → IsLoading count l
    → Answer mem (finish l)
unfolding finish
finish-Answer mem count (error m) e h = clear-IsCleared m
finish-Answer mem count (loaded m) e h = elim (Bool-cases (all_of is_some m.remapclasses)) [
  | inl all ↦ rw all (e ∙ ap some (sym h.0), AllLoaded-of_all 0 m.remapclasses h.1 all)
  | inr some_lack ↦ rw some_lack (clear-IsCleared m)
]

load_count_lem :
    (mem : List ℕ) (last count : ℕ) (m : Manager)
    → Terminated mem last
    → last ≤ length mem
    → get_elem? mem 0 ≡ some count
    → (r : Bool × Manager) × (load_count mem last count m ≡ some r) × Answer mem r
unfolding load_count
load_count_lem mem last count m t h e =
    let started = record m {
      remapclasses = replicate count none;
      registry = record m.registry { allocation_count = 0 };
    } in
    let (l, x) = Returns-some _ (load_classes_total count mem last 1 started t h) in
    (
      finish l,
      ground (arith, x),
      finish-Answer mem count l e (
          load_classes-IsLoading count mem last 1 count started l (length-replicate count none)
            (OwnIndex-replicate 0 count) x),
    )

-- Whatever the words are, and however many bytes of them are given, loading ends, and reads nothing
-- outside of the words and the word of zeros behind them, at which a string ends that the words do
-- not end. Either all classes are loaded, as many as the first word says, and each has the config
-- index that is its place, or it answers false, no class is loaded and nothing is registered.
pub load_lem :
    (words : List ℕ) (vector_size : ℕ) (m0 : Manager)
    → vector_size ≤ 4 * length words
    → (r : Bool × Manager) × (load (words ++ (0 ∷ [])) vector_size m0 ≡ some r)
      × Answer (words ++ (0 ∷ [])) r
unfolding load
load_lem words vector_size m0 h =
    elim (Bool-cases (not (vector_size % 4 == 0) || ltb size 2 || ltb max_allocation_count size)) [
      | inl wrong ↦ (refused, ground (arith, wrong), clear-IsCleared m)
      | inr right ↦ elim (Option-cases (get_elem? mem 0)) [
        | inl x ↦ absurd (get_elem?_total mem 0 (omega (arith, room)) x)
        | inr (count, x) ↦ elim (Bool-cases (ltb max_config_count count)) [
          | inl many ↦ (refused, ground (arith, right, x, many), clear-IsCleared m)
          | inr few ↦
              let (r, e, a) =
                load_count_lem mem size count m (λ p hp. Terminated-of_zero words p (omega arith))
                  (omega (arith, room)) x in
              (r, ground (arith, right, x, few, e), a)
        ]
      ]
    ]
  where
    mem : List ℕ
    mem = words ++ (0 ∷ [])

    size : ℕ
    size = vector_size / 4

    m : Manager
    m = clear_remapclasses m0

    refused : Bool × Manager
    refused = (false, clear_remapclasses m)

    room : length mem ≡ length words + 1
    room = length-append words (0 ∷ [])
