-- ===== src/Orders/Cache.antt =====
-- The cache of open orders as a dict whose keys are the ids of its orders, and what is left of it
-- after cancelling those orders that a test rejects.
use mmp_meridian.Prelude.{
  ◌≡◌, refl, ap, ◌∙◌, Bool, true, false, not, String, List, [], ◌∷◌, All, any, keep, str_eq,
  str_eq_iff, Bool-cases, inl, inr, if◌then◌else◌, arith,
}
use mmp_meridian.Prelude.Dict.{Dict, contains, insert, erase, values, contains-insert, str_eq_refl}
use mmp_meridian.Exchange.{Order}

module _ {R : Type 0} where
  -- Every order stands under its id, and no id is listed twice.
  abbrev pub IsKeyed : Dict (Order R) → Type 0
  IsKeyed [] = Unit {0}
  IsKeyed ((k, o) ∷ d) = (o.id ≡ k) × (contains k d ≡ false) × IsKeyed d

  pub contains-erase :
      (k j : String) (d : Dict (Order R)) → contains j d ≡ false → contains j (erase k d) ≡ false
  contains-erase k j [] h = refl
  contains-erase k j ((i, o) ∷ d) h = ground (arith, contains-erase k j d)

  erase_absent : (k : String) (d : Dict (Order R)) → contains k d ≡ false → erase k d ≡ d
  erase_absent k [] h = refl
  erase_absent k ((i, o) ∷ d) h = ground (arith, erase_absent k d)

  pub erase-IsKeyed : (k : String) (d : Dict (Order R)) → IsKeyed d → IsKeyed (erase k d)
  erase-IsKeyed k [] h = tt
  erase-IsKeyed k ((i, o) ∷ d) (e, n, h) = elim (Bool-cases (str_eq i k)) [
    | inl y ↦ rw y h
    | inr y ↦ rw y (e, contains-erase k i d n, erase-IsKeyed k d h)
  ]

  pub insert-IsKeyed :
      (o : Order R) (d : Dict (Order R))
      → contains o.id d ≡ false
      → IsKeyed d
      → IsKeyed (insert o.id o d)
  insert-IsKeyed o [] n h = (refl, refl, tt)
  insert-IsKeyed o ((i, p) ∷ d) n (e, m, h) = elim (Bool-cases (str_eq i o.id)) [
    | inl y ↦ absurd (ground (arith, y, n))
    | inr y ↦ rw y (
      e,
      ground (arith, contains-insert o.id i o d, str_eq_iff o.id i, str_eq_iff i o.id),
      insert-IsKeyed o d (ground (arith, y, n)) h,
    )
  ]

  abbrev pub erase_all : List (Order R) → Dict (Order R) → Dict (Order R)
  erase_all [] d = d
  erase_all (o ∷ os) d = erase_all os (erase o.id d)

  abbrev pub keep_entries : (Order R → Bool) → Dict (Order R) → Dict (Order R)
  keep_entries test [] = []
  keep_entries test ((k, o) ∷ d) =
      if test o then (k, o) ∷ keep_entries test d else keep_entries test d

  erase_all-cons :
      (os : List (Order R)) (k : String) (o : Order R) (d : Dict (Order R))
      → any (λ p. str_eq k p.id) os ≡ false
      → erase_all os ((k, o) ∷ d) ≡ (k, o) ∷ erase_all os d
  erase_all-cons [] k o d h = refl
  erase_all-cons (p ∷ os) k o d h = elim (Bool-cases (str_eq k p.id)) [
    | inl y ↦ absurd (ground arith)
    | inr y ↦ rw y (erase_all-cons os k o (erase p.id d) (ground arith))
  ]

  ids_known :
      (test : Order R → Bool) (k : String) (d : Dict (Order R))
      → IsKeyed d
      → contains k d ≡ false
      → any (λ p. str_eq k p.id) (keep (λ p. not (test p)) (values d)) ≡ false
  ids_known test k [] h n = refl
  ids_known test k ((i, o) ∷ d) (e, m, h) n =
      ground (arith, str_eq_iff k o.id, str_eq_iff i k, ids_known test k d h)

  -- Cancelling the orders that fail a test leaves exactly those that pass it.
  pub erase_all-keep :
      (test : Order R → Bool) (d : Dict (Order R))
      → IsKeyed d
      → erase_all (keep (λ o. not (test o)) (values d)) d ≡ keep_entries test d
  erase_all-keep test [] h = refl
  erase_all-keep test ((k, o) ∷ d) (e, n, h) = elim (Bool-cases (test o)) [
    | inl y ↦ rw y (
        erase_all-cons (keep (λ p. not (test p)) (values d)) k o d (ids_known test k d h n)
        ∙ ap (λ t. (k, o) ∷ t) (erase_all-keep test d h))
    | inr y ↦ rw (y, e, str_eq_refl k) (erase_all-keep test d h)
  ]

  pub keep_entries-All :
      (test : Order R → Bool) (d : Dict (Order R))
      → All (λ o. test o ≡ true) (values (keep_entries test d))
  keep_entries-All test [] = tt
  keep_entries-All test ((k, o) ∷ d) = elim (Bool-cases (test o)) [
    | inl y ↦ rw y (y, keep_entries-All test d)
    | inr y ↦ rw y (keep_entries-All test d)
  ]

  -- An order that passes a stronger test is still there.
  pub keep_entries-any :
      (test strong : Order R → Bool) (d : Dict (Order R))
      → ((o : Order R) → strong o ≡ true → test o ≡ true)
      → any strong (values d) ≡ true
      → any strong (values (keep_entries test d)) ≡ true
  keep_entries-any test strong [] h p = p
  keep_entries-any test strong ((k, o) ∷ d) h p =
      ground (arith, h o, keep_entries-any test strong d h)
