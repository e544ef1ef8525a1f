-- ===== src/Tui/Rows.antt =====
-- The rows of the active screen of internal/tui/app.go, and the selected one.
use ai_proxy_centranity.Base.{
  ℕ, zero, suc, Bool, false, ◌||◌, Option, none, some, List, [], ◌∷◌, eqb, if◌then◌else◌,
}
use ai_proxy_centranity.Base.Text.{Text, text, precedes}
use ai_proxy_centranity.Base.Assoc.{lookup}
use ai_proxy_centranity.Tui.State.{
  Value, string, boolean, strings, Row, Model, tab_keys, tab_policies, tab_routing, tab_proxies,
}

abbrev Named : Type 0
Named = Text × List Text

unfoldable pub insert_sorted : Named → List Named → List Named
insert_sorted r [] = r ∷ []
insert_sorted r (q ∷ qs) =
    let rest = insert_sorted r qs in if precedes (q.0) (r.0) then q ∷ rest else r ∷ q ∷ qs

-- The aliases in the order of `sort.Strings`, with their targets.
unfoldable pub sorted : List Named → List Named
sorted [] = []
sorted (r ∷ rs) = insert_sorted r (sorted rs)

abbrev route_row : Named → Row
route_row (alias, targets) = (text "alias", string alias) ∷ (text "targets", strings targets) ∷ []

unfoldable pub route_rows : List Named → List Row
route_rows [] = []
route_rows (r ∷ rs) = route_row r ∷ route_rows rs

-- `resourceList`
unfoldable pub resource_list : Model → List Row
resource_list m =
    if eqb m.active_tab tab_proxies
    then m.proxies
    else if eqb m.active_tab tab_keys
    then m.keys
    else if eqb m.active_tab tab_routing
    then route_rows (sorted m.routes)
    else []

-- `list[i]`; Go panics where there is no such row, which is `none`.
unfoldable pub row_at : List Row → ℕ → Option Row
row_at [] i = none
row_at (r ∷ rs) zero = some r
row_at (r ∷ rs) (suc i) = row_at rs i

abbrev or_empty : Option Value → Text
or_empty (some (string s)) = s
or_empty _ = []

-- `s, _ := row[k].(string)`
unfoldable pub string_at : Text → Row → Text
string_at k row = or_empty (lookup k row)

abbrev or_false : Option Value → Bool
or_false (some (boolean b)) = b
or_false _ = false

unfoldable pub bool_at : Text → Row → Bool
bool_at k row = or_false (lookup k row)

abbrev pub id_key : ℕ → Text
id_key tab = if eqb tab tab_routing then text "alias" else text "id"

abbrev pub id_of : Text → Option Row → Option Text
id_of k none = none
id_of k (some row) = some (string_at k row)

abbrev pub id_in : Text → List Row → ℕ → Option Text
id_in k [] i = some []
id_in k (r ∷ rs) i = id_of k (row_at (r ∷ rs) i)

-- `resourceID`; `none` is the panic.
unfoldable pub resource_id : Model → Option Text
resource_id m = id_in (id_key m.active_tab) (resource_list m) m.selected

abbrev pub enabled_of : Option Row → Option Bool
enabled_of none = none
enabled_of (some row) = some (bool_at (text "enabled") row)

abbrev pub enabled_in : List Row → ℕ → Option Bool
enabled_in [] i = some false
enabled_in (r ∷ rs) i = enabled_of (row_at (r ∷ rs) i)

-- `selectedEnabled`
unfoldable pub selected_enabled : Model → Option Bool
selected_enabled m = enabled_in (resource_list m) m.selected

-- `isManagementTab`
unfoldable pub is_management_tab : ℕ → Bool
is_management_tab tab =
    eqb tab tab_proxies || eqb tab tab_keys || eqb tab tab_policies || eqb tab tab_routing

-- `canToggle`
unfoldable pub can_toggle : ℕ → Bool
can_toggle tab = eqb tab tab_proxies || eqb tab tab_keys
