-- ===== src/Routes/Laws.antt =====
-- Which of the advertised endpoints are answered by a view.
use pyadcs_connector.Prelude.{
  Bool, true, false, not, ◌||◌, ◌&&◌, All, all, map, inl, inr, Bool-cases, ◌==◌, List, [], ◌∷◌,
  is_empty, ◌≡◌, refl, ap, ◌∙◌, ℕ,
}
use pyadcs_connector.Text.{Text, codes, text_eq, split, starts_with, join, cons_head}
use pyadcs_connector.Text.Laws.{HasNo, split-join}
use pyadcs_connector.Routes.{Dispatch, handled, dispatch, dispatch_in, urlpatterns, methods}
use pyadcs_connector.Routes.Segments.{segment, segments, matches, same_method}
use pyadcs_connector.Routes.Endpoints.{
  Endpoint, asked, parts, value_of, behind_slash, function_groups, authority_provider_endpoints,
  discovery_provider_endpoints,
}

abbrev pub is_handled : Dispatch → Bool
is_handled (handled view) = true
is_handled _ = false

-- There is no route for the one, and no view of the other's route takes its method.
abbrev pub is_unserved : Endpoint → Bool
is_unserved e = text_eq (codes "getConnection") e.name || text_eq (codes "getDiscovery") e.name

unfoldable same : Bool → Bool → Bool
same true b = b
same false b = not b

same-true : (a b rest : Bool) → (same a b && rest) ≡ true → (a ≡ b) × (rest ≡ true)
unfolding same
same-true true true rest h = (refl, h)
same-true false false rest h = (refl, h)
same-true true false rest h = absurd (cc h)
same-true false true rest h = absurd (cc h)

All-from_all {ℓ} :
    {A : Type ℓ} (p q : A → Bool) (xs : List A)
    → all (λ x. same (p x) (q x)) xs ≡ true
    → All (λ x. p x ≡ q x) xs
unfolding same
All-from_all p q [] h = tt
All-from_all p q (x ∷ xs) h =
    let (here, rest) = same-true (p x) (q x) (all (λ y. same (p y) (q y)) xs) h in
    (here, All-from_all p q xs rest)

All-zip {ℓ p q r} :
    {A : Type ℓ} {P : A → Type p} {Q : A → Type q} {R : A → Type r} (xs : List A)
    → ((x : A) → P x → Q x → R x)
    → All P xs
    → All Q xs
    → All R xs
All-zip [] f ps qs = tt
All-zip (x ∷ xs) f (h, ps) (k, qs) = (f x h k, All-zip xs f ps qs)

-- The parts that are joined for a path are the ones that it is split into.
split-asked :
    (v : Text) (parts : List Text)
    → is_empty parts ≡ false
    → All (HasNo b'/') parts
    → split b'/' (join (b'/' ∷ []) parts) ≡ parts
split-asked v [] filled h = absurd (cc filled)
split-asked v (l ∷ ls) filled h = split-join b'/' l ls h

cons_head-HasNo :
    (sep c : ℕ) (ls : List Text)
    → (c == sep) ≡ false
    → All (HasNo sep) ls
    → All (HasNo sep) (cons_head c ls)
cons_head-HasNo sep c [] e h = ((e, tt), tt)
cons_head-HasNo sep c (l ∷ ls) e h = ((e, h.0), h.1)

split-HasNo : (sep : ℕ) (s : Text) → All (HasNo sep) (split sep s)
unfolding split
split-HasNo sep [] = (tt, tt)
split-HasNo sep (c ∷ s) = elim (Bool-cases (c == sep)) [
  | inl e ↦ rw e (tt, split-HasNo sep s)
  | inr e ↦ rw e (cons_head-HasNo sep c (split sep s) e (split-HasNo sep s))
]

values-HasNo :
    (sep : ℕ) (opening v : Text) (ps : List Text)
    → HasNo sep v
    → All (HasNo sep) ps
    → All (HasNo sep) (map (value_of v) (map (segment opening) ps))
values-HasNo sep opening v [] whole h = tt
values-HasNo sep opening v (p ∷ ps) whole h =
    let rest = values-HasNo sep opening v ps whole h.1 in
    elim (Bool-cases (starts_with opening p)) [
      | inl e ↦ rw e (whole, rest)
      | inr e ↦ rw e (h.0, rest)
    ]

behind_slash-HasNo :
    (sep : ℕ) (ps : List Text) → All (HasNo sep) ps → All (HasNo sep) (behind_slash ps)
behind_slash-HasNo sep [] h = tt
behind_slash-HasNo sep (p ∷ ps) h = h.1

parts-HasNo : (v : Text) (e : Endpoint) → HasNo b'/' v → All (HasNo b'/') (parts v e)
unfolding parts segments
parts-HasNo v e h =
    behind_slash-HasNo b'/' (map (value_of v) (segments (codes "{") e.context))
      (values-HasNo b'/' (codes "{") v (split b'/' e.context) h (split-HasNo b'/' e.context))

-- Each advertised endpoint, asked for with any text without a slash but the empty one and
-- `attributes` in the place of its variables, is handled by a view that takes its method, but for
-- `getConnection` and `getDiscovery`.
pub endpoints_handled :
    (v : Text)
    → is_empty v ≡ false
    → HasNo b'/' v
    → text_eq (codes "attributes") v ≡ false
    → All (λ e. is_handled (dispatch e.method (asked v e)) ≡ not (is_unserved e)) function_groups
unfolding same function_groups authority_provider_endpoints discovery_provider_endpoints parts
    segments matches same_method methods dispatch_in urlpatterns text_eq split starts_with
endpoints_handled [] filled whole other = absurd (cc filled)
endpoints_handled (c ∷ cs) filled whole other =
    let v : Text = c ∷ cs in
    All-zip
      {P = λ e. is_handled (dispatch_in urlpatterns e.method (parts v e)) ≡ not (is_unserved e)}
      {Q = λ e. is_empty (parts v e) ≡ false}
      {R = λ e. is_handled (dispatch e.method (asked v e)) ≡ not (is_unserved e)} function_groups
      (λ e here there.
        ap (λ path. is_handled (dispatch_in urlpatterns e.method path))
          (split-asked v (parts v e) there (parts-HasNo v e whole))
        ∙ here)
      (All-from_all (λ e. is_handled (dispatch_in urlpatterns e.method (parts v e)))
        (λ e. not (is_unserved e)) function_groups (rw other (refl {a = true})))
      (All-from_all (λ e. is_empty (parts v e)) (λ _. false) function_groups (refl {a = true}))
