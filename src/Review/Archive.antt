-- ===== src/Review/Archive.antt =====
-- What publishing leaves in the bucket where no service call fails.
use decision_center.Base.{
  false, Option, none, some, String, List, [], ◌∷◌, ◌≡◌, refl, ◌∙◌, arith, Bool-cases, inl, inr,
  str_eq, eq_iff, eq_refl, subst, contains, if◌then◌else◌,
}
use decision_center.Base.Dict.{Dict, lookup, insert, lookup-insert, string_key}
use decision_center.Review.Store.{
  done, ObjectName, World, ◌>>=◌, external, gets, modify, pure, throw, attempt, object_exists,
  put_object, write_copy, copy_object, copy_to_final, object_key,
}
use decision_center.Review.Publish.{copy_all, note_copy, PublishError}

-- The world in which no further service call fails.
abbrev pub calm : World → World
calm w = record w { faults = [] }

-- What the final area holds of a file once it is copied: what it held, or what is staged.
unfoldable pub archived : String → String → Dict ObjectName String → Option String
archived rid f b = elim (lookup ("final", (rid, f)) b) [
  | some body ↦ some body
  | none ↦ lookup ("staging", (rid, f)) b
]

store :
    String
    → String
    → Option String
    → Option String
    → Dict ObjectName String
    → Dict ObjectName String
store rid f (some kept) staged b = b
store rid f none none b = b
store rid f none (some body) b = insert ("final", (rid, f)) body b

copied : String → String → Dict ObjectName String → Dict ObjectName String
copied rid f b = store rid f (lookup ("final", (rid, f)) b) (lookup ("staging", (rid, f)) b) b

copy_to_final-copied :
    (rid f : String) (w : World)
    → (copy_to_final rid f (calm w)).1 ≡ calm (record w { bucket = copied rid f w.bucket })
unfolding copy_to_final object_exists copy_object external gets pure throw ◌>>=◌ write_copy
    put_object modify copied store
copy_to_final-copied rid f w = ground arith

here :
    (rid f : String) (kept staged : Option String) (b : Dict ObjectName String)
    → lookup ("final", (rid, f)) b ≡ kept
    → lookup ("staging", (rid, f)) b ≡ staged
    → lookup ("final", (rid, f)) (store rid f kept staged b)
      ≡ (if str_eq f f then archived rid f b else lookup ("final", (rid, f)) b)
unfolding store archived
here rid f (some body) staged b h k = ground (arith, h, k, eq_refl f)
here rid f none none b h k = ground (arith, h, k, eq_refl f)
here rid f none (some body) b h k = ground (
  arith,
  h,
  k,
  eq_refl f,
  eq_refl rid,
  lookup-insert ("final", (rid, f)) ("final", (rid, f)) body b,
)

there :
    (rid f g : String) (kept staged : Option String) (b : Dict ObjectName String)
    → str_eq f g ≡ false
    → lookup ("final", (rid, g)) (store rid f kept staged b) ≡ lookup ("final", (rid, g)) b
unfolding store
there rid f g (some body) staged b e = refl
there rid f g none none b e = refl
there rid f g none (some body) b e =
    lookup-insert ("final", (rid, f)) ("final", (rid, g)) body b ∙ rw (e, eq_refl rid) refl

store-final :
    (rid f g : String) (kept staged : Option String) (b : Dict ObjectName String)
    → lookup ("final", (rid, f)) b ≡ kept
    → lookup ("staging", (rid, f)) b ≡ staged
    → lookup ("final", (rid, g)) (store rid f kept staged b)
      ≡ (if str_eq f g then archived rid g b else lookup ("final", (rid, g)) b)
unfolding store archived
store-final rid f g kept staged b h k = elim (Bool-cases (str_eq f g)) [
  | inl e ↦
      let same = (eq_iff f g).0 e in
      subst
        (λ x.
          lookup ("final", (rid, x)) (store rid f kept staged b)
          ≡ (if str_eq f x then archived rid x b else lookup ("final", (rid, x)) b))
        same (here rid f kept staged b h k)
  | inr e ↦ rw e (there rid f g kept staged b e)
]

copied-final :
    (rid f g : String) (b : Dict ObjectName String)
    → lookup ("final", (rid, g)) (copied rid f b)
      ≡ (if str_eq f g then archived rid g b else lookup ("final", (rid, g)) b)
unfolding copied
copied-final rid f g b =
    store-final rid f g (lookup ("final", (rid, f)) b) (lookup ("staging", (rid, f)) b) b refl refl

store-staging :
    (rid f g : String) (kept staged : Option String) (b : Dict ObjectName String)
    → lookup ("staging", (rid, g)) (store rid f kept staged b) ≡ lookup ("staging", (rid, g)) b
unfolding store
store-staging rid f g (some kept) staged b = refl
store-staging rid f g none none b = refl
store-staging rid f g none (some body) b =
    lookup-insert ("final", (rid, f)) ("staging", (rid, g)) body b

copied-staging :
    (rid f g : String) (b : Dict ObjectName String)
    → lookup ("staging", (rid, g)) (copied rid f b) ≡ lookup ("staging", (rid, g)) b
unfolding copied
copied-staging rid f g b =
    store-staging rid f g (lookup ("final", (rid, f)) b) (lookup ("staging", (rid, f)) b) b

pub all_copied : String → List String → Dict ObjectName String → Dict ObjectName String
all_copied rid [] b = b
all_copied rid (f ∷ fs) b = all_copied rid fs (copied rid f b)

pub copy_all-done :
    (rid : String) (fs : List String) (acc : List ObjectName × List PublishError) (w : World)
    → (end : List ObjectName × List PublishError) × ((copy_all rid fs acc w).0 ≡ done end)
unfolding copy_all pure attempt ◌>>=◌
copy_all-done rid [] acc w = (acc, refl)
copy_all-done rid (f ∷ fs) acc w =
    copy_all-done rid fs (note_copy rid f (copy_to_final rid f w).0 acc) (copy_to_final rid f w).1

pub copy_all-copied :
    (rid : String) (fs : List String) (acc : List ObjectName × List PublishError) (w : World)
    → (copy_all rid fs acc (calm w)).1 ≡ calm (record w { bucket = all_copied rid fs w.bucket })
unfolding copy_all all_copied pure attempt ◌>>=◌
copy_all-copied rid [] acc w = refl
copy_all-copied rid (f ∷ fs) acc w =
    let step = copy_to_final-copied rid f w in
    rw step (
      copy_all-copied rid fs (note_copy rid f (copy_to_final rid f (calm w)).0 acc)
        (record w { bucket = copied rid f w.bucket }))

archived-copied :
    (rid f g : String) (b : Dict ObjectName String)
    → archived rid g (copied rid f b) ≡ archived rid g b
unfolding archived
archived-copied rid f g b = ground (arith, copied-final rid f g b, copied-staging rid f g b)

-- What the final area holds of any file after the copies.
pub all_copied-final :
    (rid g : String) (fs : List String) (b : Dict ObjectName String)
    → lookup ("final", (rid, g)) (all_copied rid fs b)
      ≡ (if contains g fs then archived rid g b else lookup ("final", (rid, g)) b)
unfolding all_copied contains
all_copied-final rid g [] b = refl
all_copied-final rid g (f ∷ fs) b = ground (
  arith,
  all_copied-final rid g fs (copied rid f b),
  copied-final rid f g b,
  archived-copied rid f g b,
)
