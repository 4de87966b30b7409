-- ===== src/Client/Listing/Sorted.antt =====
-- The lists of incidents are sorted, newest first, and hold what the server listed.
use porter_agent.Base.{
  ℤ, ◌≡◌, List, [], ◌∷◌, All, ltb_ℤ, Bool, true, false, ◌≤ℤ◌, refl, subst, ◌∙◌, ≤ℤ_trans, ap,
  ltb_ℤ-true, ltb_ℤ-false,
}
use mathlib.Core.List.{Perm}
use mathlib.Core.List.Perm
use mathlib.Core.Path.{subst₂}
use porter_agent.Client.Listing.{newer, insert_incident, sort_incidents, timestamp_of}
use porter_agent.Text.{Text}
use porter_agent.Incident.{new_incident_from_string}
use porter_agent.Result.{ok, panic}

-- The identifier reads as an incident with the time stamp `t`.
abbrev pub IsAt : Text → ℤ → Type 0
IsAt id t = timestamp_of (new_incident_from_string id) ≡ ok t

-- Each identifier of the list reads as an incident.
abbrev pub Readable : List Text → Type 0
Readable = All (λ id. (t : ℤ) × IsAt id t)

-- No identifier is newer than one before it.
abbrev pub AtMost : Text → List Text → Type 0
AtMost a = All (λ b. (s t : ℤ) → IsAt a s → IsAt b t → t ≤ℤ s)

abbrev pub IsNewestFirst : List Text → Type 0
IsNewestFirst [] = Unit
IsNewestFirst (a ∷ l) = AtMost a l × IsNewestFirst l

newer-IsAt : (a b : Text) (s t : ℤ) → IsAt a s → IsAt b t → newer a b ≡ ok (ltb_ℤ t s)
unfolding newer
newer-IsAt a b s t h k = rw (h, k)

at_unique : (id : Text) {s t : ℤ} → IsAt id s → IsAt id t → s ≡ t
at_unique id h k = cc

pub insert_newer :
    (a b : Text) (l r : List Text)
    → newer b a ≡ ok true
    → insert_incident a l ≡ ok r
    → insert_incident a (b ∷ l) ≡ ok (b ∷ r)
unfolding insert_incident
insert_newer a b l r h k = rw (h, k)

pub insert_rest :
    (a b : Text) (l : List Text)
    → newer b a ≡ ok true
    → insert_incident a l ≡ panic
    → insert_incident a (b ∷ l) ≡ panic
unfolding insert_incident
insert_rest a b l h k = rw (h, k)

pub insert_older :
    (a b : Text) (l : List Text) → newer b a ≡ ok false → insert_incident a (b ∷ l) ≡ ok (a ∷ b ∷ l)
unfolding insert_incident
insert_older a b l h = rw h

at_most : (a b : Text) {s t : ℤ} → IsAt a s → IsAt b t → t ≤ℤ s → AtMost a (b ∷ [])
at_most a b {s} {t} h k le =
    ((λ s' t' h' k'. subst₂ (λ x y. y ≤ℤ x) (at_unique a h h') (at_unique b k k') le), tt)

AtMost-trans :
    (a b : Text) {s t : ℤ} (l : List Text) → IsAt a s → IsAt b t → t ≤ℤ s → AtMost b l → AtMost a l
AtMost-trans a b [] h k le below = tt
AtMost-trans a b {s} {t} (c ∷ l) h k le below = (
  (λ s' u h' m. subst (λ x. u ≤ℤ x) (at_unique a h h') (≤ℤ_trans u t s (below.0 t u k m) le)),
  AtMost-trans a b l h k le below.1,
)

-- A list in which `a` has been placed: sorted, with the same entries, which all read as incidents.
record Placed (a : Text) (l r : List Text) : Type 0 where
  sorted : IsNewestFirst r
  entries : Perm r (a ∷ l)
  readable : Readable r
  below : (x : Text) → AtMost x (a ∷ []) → AtMost x l → AtMost x r

insert_incident-Placed :
    (a : Text) (s : ℤ) (l : List Text)
    → IsAt a s
    → Readable l
    → IsNewestFirst l
    → (r : List Text) × (insert_incident a l ≡ ok r) × Placed a l r
insert_incident-Placed a s [] h readable sorted = (
  a ∷ [],
  unfold insert_incident in refl,
  record { sorted = (tt, tt); entries = Perm.refl _; readable = ((s, h), tt); below = λ x m n. m },
)
insert_incident-Placed a s (b ∷ l) h ((t, k), readable) (most, sorted) =
    by_order (ltb_ℤ s t) refl (insert_incident-Placed a s l h readable sorted)
  where
    by_order :
        (c : Bool)
        → ltb_ℤ s t ≡ c
        → (r : List Text) × (insert_incident a l ≡ ok r) × Placed a l r
        → (r : List Text) × (insert_incident a (b ∷ l) ≡ ok r) × Placed a (b ∷ l) r
    by_order true e (r, done, p) = (
      b ∷ r,
      insert_newer a b l r (newer-IsAt b a t s k h ∙ ap ok e) done,
      record {
        sorted = (p.below b (at_most b a k h (ltb_ℤ-true s t e)) most, p.sorted);
        entries = Perm.trans (Perm.cons b p.entries) (Perm.swap a b l);
        readable = ((t, k), p.readable);
        below = λ x m n. (n.0, p.below x m n.1);
      },
    )
    by_order false e rest = (
      a ∷ b ∷ l,
      insert_older a b l (newer-IsAt b a t s k h ∙ ap ok e),
      record {
        sorted = (
          (
            (at_most a b h k (ltb_ℤ-false s t e)).0,
            AtMost-trans a b l h k (ltb_ℤ-false s t e) most,
          ),
          (most, sorted),
        );
        entries = Perm.refl _;
        readable = ((s, h), ((t, k), readable));
        below = λ x m n. (m.0, n);
      },
    )

-- A sorted list that an identifier is put into.
sort_step :
    (a : Text) (ids : List Text)
    → Readable (a ∷ ids)
    → (r : List Text) × (sort_incidents ids ≡ ok r) × IsNewestFirst r × Perm r ids × Readable r
    → (r : List Text) × (sort_incidents (a ∷ ids) ≡ ok r)
      × IsNewestFirst r
      × Perm r (a ∷ ids)
      × Readable r
unfolding sort_incidents
sort_step a ids ((s, h), _) (r, done, sorted, entries, readable) =
    let (q, placed, p) = insert_incident-Placed a s r h readable sorted in
    (q, rw (done, placed), p.sorted, Perm.trans p.entries (Perm.cons a entries), p.readable)

sorted_all :
    (ids : List Text)
    → Readable ids
    → (r : List Text) × (sort_incidents ids ≡ ok r) × IsNewestFirst r × Perm r ids × Readable r
sorted_all [] h = ([], unfold sort_incidents in refl, tt, Perm.refl [], tt)
sorted_all (a ∷ ids) h = sort_step a ids h (sorted_all ids h.1)

-- If every identifier reads as an incident, the sort ends without a panic, returns the same
-- identifiers, and none is newer than one before it.
pub sort_incidents-IsNewestFirst :
    (ids : List Text)
    → Readable ids
    → (r : List Text) × (sort_incidents ids ≡ ok r) × IsNewestFirst r × Perm r ids
sort_incidents-IsNewestFirst ids h =
    let (r, done, sorted, entries, readable) = sorted_all ids h in (r, done, sorted, entries)
