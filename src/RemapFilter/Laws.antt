-- ===== src/RemapFilter/Laws.antt =====
-- What the filters of core/kext/RemapFilter block.
use karabiner_cn.Base.{
  ℕ, ◌+◌, ◌≡◌, ◌⊎◌, refl, ◌∙◌, Bool, true, false, not, ◌||◌, List, [], ◌∷◌, none, some, ◌==◌, inl,
  inr, any_of, ap, ap₂, if◌then◌else◌,
}
use karabiner_cn.Bridge
use karabiner_cn.FlagStatus.Counter.{Item}
use karabiner_cn.RemapFilter.{Current, create, isblocked, meets_modifiers, modifier_targets}

-- The kinds of filter that have a NOT and an ONLY type.
pub data Kind : Type 0 where
  application window_name uielement_role config device input_source : Kind
  last_pressed last_released last_sent_event : Kind
  modifier modifier_locked modifier_stuck : Kind

abbrev pub not_type : Kind → ℕ
not_type Kind.application = Bridge.filtertype_application_not
not_type Kind.window_name = Bridge.filtertype_windowname_not
not_type Kind.uielement_role = Bridge.filtertype_uielementrole_not
not_type Kind.config = Bridge.filtertype_config_not
not_type Kind.device = Bridge.filtertype_device_not
not_type Kind.input_source = Bridge.filtertype_inputsource_not
not_type Kind.last_pressed = Bridge.filtertype_lastpressedphysicalkey_not
not_type Kind.last_released = Bridge.filtertype_lastreleasedphysicalkey_not
not_type Kind.last_sent_event = Bridge.filtertype_lastsentevent_not
not_type Kind.modifier = Bridge.filtertype_modifier_not
not_type Kind.modifier_locked = Bridge.filtertype_modifier_locked_not
not_type Kind.modifier_stuck = Bridge.filtertype_modifier_stuck_not

-- There is no key or event on record that a filter of the kind could look at.
unfoldable pub is_unknown : Current → Kind → Bool
is_unknown c Kind.last_pressed = c.last_pressed_physical_key.data_type == Bridge.datatype_none
is_unknown c Kind.last_released = c.last_released_physical_key.data_type == Bridge.datatype_none
is_unknown c Kind.last_sent_event = c.last_sent.data_type == Bridge.datatype_none
is_unknown c k = false

-- Whether the filter that the factory makes of a block blocks; a null pointer does not.
unfoldable pub blocks : Current → List ℕ → Bool
unfolding create isblocked
blocks c words = elim (create words) [ none ↦ false | some f ↦ isblocked c f ]

-- The vectors that a modifier filter of a kind meets do not depend on NOT and ONLY.
met_modifiers :
    (t : ℕ) (items : List Item) (ts : List (List ℕ))
    → (t ≡ Bridge.filtertype_modifier_not)
      ⊎ (t ≡ Bridge.filtertype_modifier_locked_not)
      ⊎ (t ≡ Bridge.filtertype_modifier_stuck_not)
    → any_of (meets_modifiers (t + 1) items) ts ≡ any_of (meets_modifiers t items) ts
unfolding meets_modifiers
met_modifiers t items [] e = refl
met_modifiers t items (m ∷ ms) (inl e) = ap₂ ◌||◌ (rw e refl) (met_modifiers t items ms (inl e))
met_modifiers t items (m ∷ ms) (inr (inl e)) =
    ap₂ ◌||◌ (rw e refl) (met_modifiers t items ms (inr (inl e)))
met_modifiers t items (m ∷ ms) (inr (inr e)) =
    ap₂ ◌||◌ (rw e refl) (met_modifiers t items ms (inr (inr e)))

flip : (b : Bool) → (if b then false else true) ≡ not (if b then true else false)
flip true = refl
flip false = refl

flip_known :
    (u b : Bool)
    → (if u then false else (if b then false else true))
      ≡ (if u then false else not (if u then false else (if b then true else false)))
flip_known true b = refl
flip_known false b = flip b

-- Of two filters with the same words the one of the ONLY type blocks exactly when the one of the NOT
-- type does not, except that of the filters on the last pressed key, the last released key and the
-- last sent event neither blocks while the data type on record is NONE: so it is before the first
-- event, and for the last sent event also behind one whose kind is not recorded.
pub blocks-only :
    (c : Current) (k : Kind) (words : List ℕ)
    → blocks c ((not_type k + 1) ∷ words)
      ≡ (if is_unknown c k then false else not (blocks c (not_type k ∷ words)))
unfolding blocks is_unknown
blocks-only c Kind.application words = flip _
blocks-only c Kind.window_name words = flip _
blocks-only c Kind.uielement_role words = flip _
blocks-only c Kind.config words = flip _
blocks-only c Kind.device words = flip _
blocks-only c Kind.input_source words = flip _
blocks-only c Kind.last_pressed words = flip_known _ _
blocks-only c Kind.last_released words = flip_known _ _
blocks-only c Kind.last_sent_event words = flip_known _ _
blocks-only c Kind.modifier words =
    ap (λ b. if b then false else true)
      (met_modifiers Bridge.filtertype_modifier_not c.flag_status (modifier_targets [] words)
        (inl refl))
    ∙ flip _
blocks-only c Kind.modifier_locked words =
    ap (λ b. if b then false else true)
      (met_modifiers Bridge.filtertype_modifier_locked_not c.flag_status (modifier_targets [] words)
        (inr (inl refl)))
    ∙ flip _
blocks-only c Kind.modifier_stuck words =
    ap (λ b. if b then false else true)
      (met_modifiers Bridge.filtertype_modifier_stuck_not c.flag_status (modifier_targets [] words)
        (inr (inr refl)))
    ∙ flip _
