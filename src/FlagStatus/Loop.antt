-- ===== src/FlagStatus/Loop.antt =====
-- The loops of core/kext/Classes/FlagStatus.cpp over `item_`, and what they leave in it.
use karabiner_cn.Base.{
  ◌≡◌, sym, ◌∙◌, Bool, ◌&&◌, List, [], ◌∷◌, ◌++◌, map, if◌then◌else◌, append_assoc, append-nil,
}
use karabiner_cn.StatusMessage.{Board}
use karabiner_cn.FlagStatus.Counter.{Item}
use karabiner_cn.FlagStatus.Message.{update_status_message}

-- The loop of `DEFINE_METHODS`: each selected item is changed, and then the status message may be
-- updated, which reads the whole vector as it is at that moment.
unfoldable pub for_items :
    (Item → Bool)
    → (Item → Item)
    → (Item → Bool)
    → List Item
    → List Item
    → Board
    → List Item × Board
unfolding update_status_message
for_items select change notify visited [] b = (visited, b)
for_items select change notify visited (x ∷ xs) b =
    let x' = if select x then change x else x in
    for_items select change notify (visited ++ (x' ∷ [])) xs
      (if select x && notify x' then update_status_message (visited ++ (x' ∷ xs)) b else b)

-- A loop over all items with one update of the status message behind it.
unfoldable pub visit : (Item → Item) → List Item → Board → List Item × Board
unfolding update_status_message
visit change items b = let items' = map change items in (items', update_status_message items' b)

-- The items after the loop do not depend on the status messages.
pub for_items_lem :
    (select : Item → Bool) (change : Item → Item) (notify : Item → Bool) (xs visited : List Item)
    (b : Board)
    → (for_items select change notify visited xs b).0
      ≡ visited ++ map (λ x. if select x then change x else x) xs
unfolding for_items
for_items_lem select change notify [] visited b = sym (append-nil visited)
for_items_lem select change notify (x ∷ xs) visited b =
    for_items_lem select change notify xs _ _
    ∙ append_assoc visited ((if select x then change x else x) ∷ []) _
