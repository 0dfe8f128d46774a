-- ===== src/Update/Newest.antt =====
-- That `Check` offers the newest release, and nothing where none is newer.
use leave_safe.Prelude.{
  Bool, true, false, ◌&&◌, ◌||◌, not, ◌≡◌, refl, List, [], ◌∷◌, Bytes, bytes_eq, bytes_eq_refl,
  arith, Option, none, some, All, if◌then◌else◌, Bool-cases, inl, inr,
}
use leave_safe.Update.{
  Release, Result, eligible, is_better, best_release, offer, sorts_after, is_release, check,
}
use leave_safe.Update.Order.{sorts_after_asym, sorts_after_between}

-- No release of the list that counts on the channel sorts after a version.
pub NoneAfter : Bytes → Bytes → List Release → Type 0
NoneAfter channel version rels =
    All (λ (s : Release). (eligible channel s && sorts_after s.tag_name version) ≡ false) rels

-- One of them carries the tag.
pub is_tag_of : Bytes → Bytes → List Release → Bool
is_tag_of channel tag [] = false
is_tag_of channel tag (s ∷ ss) =
    (eligible channel s && bytes_eq s.tag_name tag) || is_tag_of channel tag ss

-- Whether a release, where there is one, sorts after another.
after_best : Release → Option Release → Bool
after_best s none = true
after_best s (some best) = sorts_after s.tag_name best.tag_name

-- One round of the loop.
abbrev pick : Bytes → Release → Option Release → Option Release
pick channel rel best = if eligible channel rel && is_better rel best then some rel else best

not_after :
    (a b c : Bytes) → sorts_after a b ≡ false → sorts_after c b ≡ true → sorts_after a c ≡ false
not_after a b c h k =
    ground (arith, sorts_after_between a c b, sorts_after_between a b c, sorts_after_asym b c)

second : (a b : Bool) → (a && b) ≡ true → b ≡ true
second a b h = ground arith

pick_keeps :
    (channel : Bytes) (s rel : Release) (best : Option Release)
    → after_best s best ≡ false
    → after_best s (pick channel rel best) ≡ false
unfolding after_best is_better
pick_keeps channel s rel none h = absurd cc
pick_keeps channel s rel (some best) h =
    elim (Bool-cases (eligible channel rel && sorts_after rel.tag_name best.tag_name)) [
      | inl y ↦ rw y (not_after s.tag_name best.tag_name rel.tag_name h (second _ _ y))
      | inr n ↦ rw n h
    ]

pick_own :
    (channel : Bytes) (s : Release) (best : Option Release)
    → (eligible channel s && after_best s (pick channel s best)) ≡ false
unfolding after_best is_better
pick_own channel s none = ground (arith, sorts_after_asym s.tag_name s.tag_name)
pick_own channel s (some best) = ground (arith, sorts_after_asym s.tag_name s.tag_name)

-- A release that is not after the best one so far is not after the one that the loop ends with.
best_release_keeps :
    (channel : Bytes) (s : Release) (rels : List Release) (best : Option Release)
    → after_best s best ≡ false
    → after_best s (best_release channel rels best) ≡ false
unfolding best_release
best_release_keeps channel s [] best h = h
best_release_keeps channel s (rel ∷ rels) best h =
    best_release_keeps channel s rels (pick channel rel best) (pick_keeps channel s rel best h)

-- No release of the list is after the one that the loop ends with.
best_release_best :
    (channel : Bytes) (rels : List Release) (best : Option Release)
    → All
        (λ (s : Release).
          (eligible channel s && after_best s (best_release channel rels best)) ≡ false)
        rels
unfolding best_release
best_release_best channel [] best = tt
best_release_best channel (rel ∷ rels) best = (
  ground (
    arith,
    pick_own channel rel best,
    best_release_keeps channel rel rels (pick channel rel best),
  ),
  best_release_best channel rels (pick channel rel best),
)

has_tag_of : Release → Option Release → Bool
has_tag_of r none = false
has_tag_of r (some best) = bytes_eq best.tag_name r.tag_name

-- The best release is one of the list, or the one that the loop began with.
is_from : Bytes → List Release → Option Release → Option Release → Bool
is_from channel rels best none = true
is_from channel rels best (some r) = is_tag_of channel r.tag_name rels || has_tag_of r best

pick_from :
    (channel : Bytes) (rel : Release) (rels : List Release) (best end : Option Release)
    → is_from channel rels (pick channel rel best) end ≡ true
    → is_from channel (rel ∷ rels) best end ≡ true
unfolding is_from is_tag_of has_tag_of
pick_from channel rel rels best none h = refl
pick_from channel rel rels best (some r) h = ground (arith, h)

best_release_from :
    (channel : Bytes) (rels : List Release) (best : Option Release)
    → is_from channel rels best (best_release channel rels best) ≡ true
unfolding best_release is_from is_tag_of has_tag_of
best_release_from channel [] none = refl
best_release_from channel [] (some best) = ground (arith, bytes_eq_refl best.tag_name)
best_release_from channel (rel ∷ rels) best =
    pick_from channel rel rels best (best_release channel rels (pick channel rel best))
      (best_release_from channel rels (pick channel rel best))

-- What a copy of the program is left with: the version that it is offered, or its own.
pub left_with : Bytes → Result → Bytes
left_with current r = if r.available then r.latest else current

still_not_after :
    (e : Bool) (a b c : Bytes)
    → (e && sorts_after a b) ≡ false
    → sorts_after b c ≡ false
    → (e && sorts_after a c) ≡ false
still_not_after false a b c h n = refl
still_not_after true a b c h n = ground (arith, h, n, sorts_after_between a b c)

left_with-offer :
    (parse_url : Bytes → Option (Bytes × Bytes)) (current : Bytes) (best : Release)
    → left_with current (offer parse_url current (some best))
      ≡ (if sorts_after best.tag_name current then best.tag_name else current)
unfolding offer left_with
left_with-offer parse_url current best = elim (Bool-cases (sorts_after best.tag_name current)) [
  | inl y ↦ rw y refl
  | inr n ↦ rw n refl
]

offer_newest :
    (parse_url : Bytes → Option (Bytes × Bytes)) (channel current : Bytes) (s : Release)
    (best : Option Release)
    → (eligible channel s && after_best s best) ≡ false
    → (eligible channel s
        && sorts_after s.tag_name (left_with current (offer parse_url current best)))
      ≡ false
unfolding after_best
offer_newest parse_url channel current s none h = ground (arith, h)
offer_newest parse_url channel current s (some best) h =
    rw (left_with-offer parse_url current best)
      (elim (Bool-cases (sorts_after best.tag_name current)) [
        | inl y ↦ rw y h
        | inr n ↦ rw n (still_not_after (eligible channel s) s.tag_name best.tag_name current h n)
      ])

or_false_left : (b : Bool) → (b || false) ≡ true → b ≡ true
or_false_left true h = refl
or_false_left false h = h

offer_found :
    (parse_url : Bytes → Option (Bytes × Bytes)) (channel current : Bytes) (rels : List Release)
    (best : Option Release)
    → is_from channel rels none best ≡ true
    → let r : Result = offer parse_url current best in
      (not r.available || (sorts_after r.latest current && is_tag_of channel r.latest rels)) ≡ true
unfolding offer is_from has_tag_of
offer_found parse_url channel current rels none h = refl
offer_found parse_url channel current rels (some best) h =
    elim (Bool-cases (sorts_after best.tag_name current)) [
      | inl y ↦ rw (y, y) (or_false_left _ h)
      | inr n ↦ rw n refl
    ]

none_after :
    (parse_url : Bytes → Option (Bytes × Bytes)) (channel current : Bytes) (best : Option Release)
    (rels : List Release)
    → All (λ (s : Release). (eligible channel s && after_best s best) ≡ false) rels
    → NoneAfter channel (left_with current (offer parse_url current best)) rels
unfolding NoneAfter
none_after parse_url channel current best [] a = tt
none_after parse_url channel current best (s ∷ rels) a = (
  offer_newest parse_url channel current s best a.0,
  none_after parse_url channel current best rels a.1,
)

-- A copy that is a release and whose check reaches the endpoint gets an answer. A version that it is
-- offered sorts after its own and is the tag of a listed release that counts on the channel. No
-- listed release that counts sorts after the version it is left with: the one that it is offered, or
-- its own where it is offered none.
pub check_newest :
    (parse_url : Bytes → Option (Bytes × Bytes)) (channel current : Bytes) (rels : List Release)
    → is_release current ≡ true
    → (r : Result) × (check parse_url channel current (some rels) ≡ some r)
      × ((not r.available || (sorts_after r.latest current && is_tag_of channel r.latest rels))
          ≡ true)
      × NoneAfter channel (left_with current r) rels
unfolding check
check_newest parse_url channel current rels h =
    let best = best_release channel rels none in
    (
      offer parse_url current best,
      rw h refl,
      offer_found parse_url channel current rels best (best_release_from channel rels none),
      none_after parse_url channel current best rels (best_release_best channel rels none),
    )
