-- ===== src/Merge/Comments.antt =====
-- rust/src/merge.rs: comment lists under `concat_comments`.
use skg.Base.{
  Bool, true, false, ◌||◌, List, [], ◌∷◌, ◌++◌, ◌≡◌, refl, sym, ◌∙◌, append-nil, append_assoc,
  Option, none, some, any, arith, ◌≢◌, option_beq, option_beq_eq, option_beq_refl,
}
use skg.Model.{Comment, CommentOrigin, origin_eq}
use skg.Merge.{known, unknown, concat_comments}

known-nil : (c : Comment) → known [] c ≡ false
unfolding known
known-nil c = ground arith

unknown-nil : (cs : List Comment) → unknown [] cs ≡ cs
unfolding unknown
unknown-nil [] = refl
unknown-nil (c ∷ cs) = rw (known-nil c, unknown-nil cs)

pub concat_comments-append : (a b : List Comment) → concat_comments a b ≡ a ++ unknown a b
unfolding concat_comments
concat_comments-append a [] = sym (append-nil a)
concat_comments-append [] (c ∷ cs) = sym (unknown-nil (c ∷ cs))
concat_comments-append (b ∷ bs) (c ∷ cs) = refl

unknown-append : (a b c : List Comment) → unknown a (b ++ c) ≡ unknown a b ++ unknown a c
unfolding unknown
unknown-append a [] c = refl
unknown-append a (x ∷ b) c = ground (arith, unknown-append a b c)

known_from : Option CommentOrigin → List Comment → Bool
known_from none base = false
known_from (some o) base = any (λ (kept : Comment). option_beq kept.origin (some o)) base

known-known_from : (base : List Comment) (c : Comment) → known base c ≡ known_from c.origin base
unfolding known known_from
known-known_from base c = ground arith

known_from-append :
    (o : Option CommentOrigin) (a b : List Comment)
    → known_from o (a ++ b) ≡ known_from o a || known_from o b
unfolding known_from
known_from-append none a b = refl
known_from-append (some o) [] b = refl
known_from-append (some o) (x ∷ a) b = ground (arith, known_from-append (some o) a b)

-- The origin of a comment that `unknown` drops is among those of `a`.
known_from-of_known :
    (o : CommentOrigin) (a : List Comment) (x : Comment)
    → known_from x.origin a ≡ true
    → option_beq x.origin (some o) ≡ true
    → known_from (some o) a ≡ true
unfolding known_from
known_from-of_known o a x k e =
    let same : x.origin ≡ some o = option_beq_eq x.origin (some o) e in rw same at k

known_from-unknown :
    (o : Option CommentOrigin) (a b : List Comment)
    → known_from o a || known_from o (unknown a b) ≡ known_from o a || known_from o b
unfolding known_from unknown
known_from-unknown none a b = refl
known_from-unknown (some o) a [] = refl
known_from-unknown (some o) a (x ∷ b) =
    ground (arith, known-known_from a x, known_from-of_known o a x, known_from-unknown (some o) a b)

unknown-unknown : (a b c : List Comment) → unknown (a ++ unknown a b) c ≡ unknown a (unknown b c)
unfolding unknown
unknown-unknown a b [] = refl
unknown-unknown a b (x ∷ c) = ground (
  arith,
  known-known_from (a ++ unknown a b) x,
  known-known_from a x,
  known-known_from b x,
  known_from-append x.origin a (unknown a b),
  known_from-unknown x.origin a b,
  unknown-unknown a b c,
)

-- Appending comments of three sources does not depend on which two meet first.
pub concat_comments_assoc :
    (a b c : List Comment)
    → concat_comments (concat_comments a b) c ≡ concat_comments a (concat_comments b c)
concat_comments_assoc a b c =
    simp (concat_comments-append, unknown-append, unknown-unknown, append_assoc)

-- Every comment was parsed from a source.
abbrev pub HasOrigins : List Comment → Type 0
HasOrigins [] = Unit {0}
HasOrigins (c ∷ cs) = (c.origin ≢ none) × HasOrigins cs

any-mem :
    (p : Comment → Bool) (pre : List Comment) (c : Comment) (post : List Comment)
    → p c ≡ true
    → any p (pre ++ c ∷ post) ≡ true
any-mem p [] c post h = rw h
any-mem p (x ∷ pre) c post h = ground (arith, any-mem p pre c post h)

known_from-mem :
    (o : Option CommentOrigin) (pre : List Comment) (c : Comment) (post : List Comment)
    → c.origin ≡ o
    → o ≢ none
    → known_from o (pre ++ c ∷ post) ≡ true
unfolding known_from
known_from-mem none pre c post e h = absurd (h refl)
known_from-mem (some o) pre c post e h =
    let found : option_beq c.origin (some o) ≡ true = simp e (option_beq_refl (some o)) in
    any-mem (λ kept. option_beq kept.origin (some o)) pre c post found

known-mem :
    (pre : List Comment) (c : Comment) (post : List Comment)
    → c.origin ≢ none
    → known (pre ++ c ∷ post) c ≡ true
known-mem pre c post h =
    known-known_from (pre ++ c ∷ post) c ∙ known_from-mem c.origin pre c post refl h

unknown_self : (pre a : List Comment) → HasOrigins a → unknown (pre ++ a) a ≡ []
unfolding unknown
unknown_self pre [] h = refl
unknown_self pre (c ∷ a) h =
    rw (known-mem pre c a h.0)
      (rw (append_assoc pre (c ∷ []) a) at (unknown_self (pre ++ c ∷ []) a h.1))

-- Comments with a source are not repeated when they meet themselves.
pub concat_comments_self : (a : List Comment) → HasOrigins a → concat_comments a a ≡ a
concat_comments_self a h = rw (concat_comments-append, unknown_self [] a h, append-nil)
