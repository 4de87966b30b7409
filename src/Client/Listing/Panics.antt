-- ===== src/Client/Listing/Panics.antt =====
-- A key that matches the pattern of incidents and reads as none makes the lists of incidents panic.
use porter_agent.Base.{
  ℤ, ◌≡◌, ◌≢◌, ◌⊎◌, inl, inr, List, [], ◌∷◌, ◌++◌, Bool, true, false, refl, subst, ltb_ℤ, sym, ◌∙◌,
  ap,
}
use porter_agent.Result.{Result, Error, ok, err, panic}
use porter_agent.Client.Listing.{newer, insert_incident, sort_incidents, timestamp_of, Incident}
use porter_agent.Text.{Text}
use porter_agent.Incident.{new_incident_from_string}
use porter_agent.Client.Listing.Sorted.{insert_older, insert_rest, insert_newer}

timestamp_of-cases :
    (r : Result Incident) → (timestamp_of r ≡ panic) ⊎ ((t : ℤ) × (timestamp_of r ≡ ok t))
timestamp_of-cases (ok i) = inr (i.timestamp, refl)
timestamp_of-cases (err e) = inl refl
timestamp_of-cases panic = inl refl

newer-cases : (a b : Text) → (newer a b ≡ panic) ⊎ ((c : Bool) × (newer a b ≡ ok c))
unfolding newer
newer-cases a b = elim (timestamp_of-cases (new_incident_from_string a)) [
  | inl p ↦ inl (rw p)
  | inr (s, p) ↦ elim (timestamp_of-cases (new_incident_from_string b)) [
    | inl q ↦ inl (rw (p, q))
    | inr (t, q) ↦ inr (ltb_ℤ t s, rw (p, q))
  ]
]

abbrev IsBad : Text → Type 0
IsBad id = timestamp_of (new_incident_from_string id) ≡ panic

newer-bad_left : (bad b : Text) → IsBad bad → newer bad b ≡ panic
unfolding newer
newer-bad_left bad b h = rw h

newer-bad_right : (a bad : Text) → IsBad bad → newer a bad ≡ panic
unfolding newer
newer-bad_right a bad h = elim (timestamp_of-cases (new_incident_from_string a)) [
  | inl p ↦ rw p
  | inr (s, p) ↦ rw (p, h)
]

insert_panic : (a b : Text) (l : List Text) → newer b a ≡ panic → insert_incident a (b ∷ l) ≡ panic
unfolding insert_incident
insert_panic a b l h = rw h

-- A list of identifiers comes out of the sort with an entry, or does not come out.
abbrev Comes : Result (List Text) → Type 0
Comes r = (r ≡ panic) ⊎ ((b : Text) × (l : List Text) × (r ≡ ok (b ∷ l)))

insert-Comes : (a : Text) (l : List Text) → Comes (insert_incident a l)
insert-Comes a [] = inr (a, [], unfold insert_incident in refl)
insert-Comes a (b ∷ l) = by_order (newer-cases b a) (insert-Comes a l)
  where
    by_order :
        (newer b a ≡ panic) ⊎ ((c : Bool) × (newer b a ≡ ok c))
        → Comes (insert_incident a l)
        → Comes (insert_incident a (b ∷ l))
    by_order (inl p) rest = inl (insert_panic a b l p)
    by_order (inr (false, p)) rest = inr (a, b ∷ l, insert_older a b l p)
    by_order (inr (true, p)) (inl q) = inl (insert_rest a b l p q)
    by_order (inr (true, p)) (inr (x, r, q)) = inr (b, x ∷ r, insert_newer a b l (x ∷ r) p q)

sort_bind :
    (a : Text) (l r : List Text)
    → sort_incidents l ≡ ok r
    → sort_incidents (a ∷ l) ≡ insert_incident a r
unfolding sort_incidents
sort_bind a l r h = rw h

sort_rest : (a : Text) (l : List Text) → sort_incidents l ≡ panic → sort_incidents (a ∷ l) ≡ panic
unfolding sort_incidents
sort_rest a l h = rw h

sort-Comes : (a : Text) (l : List Text) → Comes (sort_incidents (a ∷ l))
sort-Comes a [] = inr (a, [], unfold sort_incidents insert_incident in refl)
sort-Comes a (b ∷ l) = go (sort-Comes b l)
  where
    go : Comes (sort_incidents (b ∷ l)) → Comes (sort_incidents (a ∷ b ∷ l))
    go (inl p) = inl (sort_rest a (b ∷ l) p)
    go (inr (x, r, p)) = subst Comes (sym (sort_bind a (b ∷ l) (x ∷ r) p)) (insert-Comes a (x ∷ r))

-- An identifier that reads as no incident makes the sort panic, wherever it stands, unless it is the
-- only one in the list.
pub sort_incidents-panic :
    (before after : List Text) (bad : Text) (e : Error)
    → new_incident_from_string bad ≡ err e
    → before ++ after ≢ []
    → sort_incidents (before ++ bad ∷ after) ≡ panic
sort_incidents-panic [] [] bad e h more = absurd (more refl)
sort_incidents-panic [] (b ∷ after) bad e h more = elim (sort-Comes b after) [
  | inl p ↦ sort_rest bad (b ∷ after) p
  | inr (x, r, p) ↦
      sort_bind bad (b ∷ after) (x ∷ r) p
      ∙ insert_panic bad x r (newer-bad_right x bad (ap timestamp_of h))
]
sort_incidents-panic (a ∷ []) [] bad e h more =
    sort_bind a (bad ∷ []) (bad ∷ []) (unfold sort_incidents insert_incident in refl)
    ∙ insert_panic a bad [] (newer-bad_left bad a (ap timestamp_of h))
sort_incidents-panic (a ∷ []) (b ∷ after) bad e h more =
    sort_rest a _ (sort_incidents-panic [] (b ∷ after) bad e h (λ q. cc))
sort_incidents-panic (a ∷ b ∷ before) after bad e h more =
    sort_rest a _ (sort_incidents-panic (b ∷ before) after bad e h (λ q. cc))
