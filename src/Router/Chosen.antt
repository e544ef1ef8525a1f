-- ===== src/Router/Chosen.antt =====
-- Which requests ServeMux hands to the chat handler, by the patterns of internal/api/router.go.
use ai_proxy_centranity.Base.{
  subst, ◌||◌, ◌≡◌, ◌↔◌, refl, sym, arith, Bool, true, false, Option, none, some, List, [], ◌∷◌,
  ◌++◌, any, take, drop,
}
use ai_proxy_centranity.Base.Text.{is_empty, Text, text, ◌==◌, eq_iff}
use ai_proxy_centranity.Router.Table
use ai_proxy_centranity.Router.Table.{Target, Route, find, fit, fit_pattern, method_fits, routes}

-- Only one pattern leads to the upstream.
abbrev pub IsChat : Target → Type 0
IsChat Table.chat = Unit
IsChat _ = ⊥

abbrev pub IsChatFound : Option (Target × Text) → Type 0
IsChatFound none = ⊥
IsChatFound (some (t, value)) = IsChat t

abbrev is_chat : Target → Bool
is_chat Table.chat = true
is_chat _ = false

not-IsChat : (t : Target) → is_chat t ≡ false → ¬ IsChat t
not-IsChat Table.chat e x = ground (arith, e)
not-IsChat _ e x = x

-- A route that leads elsewhere is not the one that is found.
skip :
    (r : Route) (rs : List Route) (method : Text) (ss : List Text)
    → is_chat r.target ≡ false
    → IsChatFound (find (r ∷ rs) method ss)
    → IsChatFound (find rs method ss)
unfolding find
skip r rs method ss e h =
    later (method_fits r.method method) (fit_pattern r.pattern ss) r.target (find rs method ss) e h
  where
    later :
        (b : Bool) (o : Option Text) (t : Target) (rest : Option (Target × Text))
        → is_chat t ≡ false
        → IsChatFound (Table.take_if b o t rest)
        → IsChatFound rest
    later true (some value) t rest e h = ground (arith, not-IsChat t e h)
    later true none t rest e h = h
    later false o t rest e h = h

or_false : (a b : Bool) → (a || b) ≡ false → (a ≡ false) × (b ≡ false)
or_false a b e = ground arith

skip_all :
    (qs rs : List Route) (method : Text) (ss : List Text)
    → any (λ r. is_chat r.target) qs ≡ false
    → IsChatFound (find (qs ++ rs) method ss)
    → IsChatFound (find rs method ss)
unfolding any
skip_all [] rs method ss e h = h
skip_all (q ∷ qs) rs method ss e h =
    let (a, b) = or_false (is_chat q.target) (any (λ r. is_chat r.target) qs) e in
    skip_all qs rs method ss b (skip q (qs ++ rs) method ss a h)

-- The one route that leads to the upstream.
abbrev chat_route : Route
chat_route = record {
  method = text "POST";
  pattern =
      Table.path (
        Table.fixed (text "v1")
        ∷ Table.fixed (text "chat")
        ∷ Table.fixed (text "completions")
        ∷ []);
  target = Table.chat;
}

abbrev chat_path : List Text
chat_path = text "v1" ∷ text "chat" ∷ text "completions" ∷ []

fits-chat_path :
    (ss : List Text) (value : Text)
    → fit_pattern chat_route.pattern ss ≡ some value
    → ss ≡ chat_path
unfolding fit
fits-chat_path [] value e = ground arith
fits-chat_path (a ∷ []) value e = ground (arith, eq_iff (text "v1") a)
fits-chat_path (a ∷ b ∷ []) value e = ground (arith, eq_iff (text "v1") a, eq_iff (text "chat") b)
fits-chat_path (a ∷ b ∷ c ∷ []) value e =
    ground (arith, eq_iff (text "v1") a, eq_iff (text "chat") b, eq_iff (text "completions") c)
fits-chat_path (a ∷ b ∷ c ∷ d ∷ ss) value e =
    ground (arith, eq_iff (text "v1") a, eq_iff (text "chat") b, eq_iff (text "completions") c)

none_found :
    (rs : List Route) (method : Text) (ss : List Text)
    → any (λ r. is_chat r.target) rs ≡ false
    → ¬ IsChatFound (find rs method ss)
unfolding find any
none_found [] method ss e h = h
none_found (r ∷ rs) method ss e h =
    let (a, b) = or_false (is_chat r.target) (any (λ r. is_chat r.target) rs) e in
    none_found rs method ss b (skip r rs method ss a h)

taken :
    (b : Bool) (o : Option Text) (t : Target) (rest : Option (Target × Text))
    → ¬ IsChatFound rest
    → IsChatFound (Table.take_if b o t rest)
    → (b ≡ true) × ((value : Text) × (o ≡ some value))
taken true (some value) t rest n h = (refl, (value, refl))
taken true none t rest n h = ground (arith, n h)
taken false o t rest n h = ground (arith, n h)

post_only : (method : Text) → method_fits (text "POST") method ≡ true → method ≡ text "POST"
unfolding ◌==◌
post_only method e = ground (arith, eq_iff (text "POST") method)

only_chat :
    (rs : List Route) (method : Text) (ss : List Text)
    → any (λ r. is_chat r.target) rs ≡ false
    → IsChatFound (find (chat_route ∷ rs) method ss)
    → (method ≡ text "POST") × (ss ≡ chat_path)
unfolding find
only_chat rs method ss e h =
    let (b, (value, f)) =
      taken (method_fits (text "POST") method) (fit_pattern chat_route.pattern ss) Table.chat
        (find rs method ss) (none_found rs method ss e) h in
    (post_only method b, fits-chat_path ss value f)

-- ServeMux hands a request to the chat handler exactly if it is a POST to /v1/chat/completions.
pub find_chat_iff :
    (method : Text) (ss : List Text)
    → IsChatFound (find routes method ss)
      ↔ (method ≡ text "POST") × (ss ≡ text "v1" ∷ text "chat" ∷ text "completions" ∷ [])
unfolding routes find fit ◌==◌ is_empty any
find_chat_iff method ss = (
  λ h.
      only_chat (drop 5 routes) method ss refl
        (skip_all (take 4 routes) (drop 4 routes) method ss refl h),
  λ (m, p).
      subst (λ m. IsChatFound (find routes m ss)) (sym m)
        (subst (λ ss. IsChatFound (find routes (text "POST") ss)) (sym p) tt),
)
