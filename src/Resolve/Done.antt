-- ===== src/Resolve/Done.antt =====
-- Maps keyed by paths, up to the equality of paths, and the files on a chain.
use skg.Base.{
  true, false, ◌||◌, none, some, List, [], ◌∷◌, ◌++◌, Bytes, ◌≡◌, ◌↔◌, refl, sym, ap, ap₂, arith,
  if◌then◌else◌, Bool-cases, inl, inr, ◌==◌,
}
use skg.Resolve.Path.{
  Component, component_eq, component_beq_iff, components, components_beq, path_beq,
}
use skg.Resolve.Files.{is_prefix, get_path, insert_path}
use skg.Resolve.Guards.{is_on_chain, path_within_root}

components_beq_iff : (as₁ bs : List Component) → (components_beq as₁ bs ≡ true) ↔ (as₁ ≡ bs)
unfolding components_beq
components_beq_iff [] [] = ground arith
components_beq_iff [] (b ∷ bs) = ground arith
components_beq_iff (a ∷ as₁) [] = ground arith
components_beq_iff (a ∷ as₁) (b ∷ bs) =
    ground (arith, components_beq_iff as₁ bs, component_beq_iff a b)

pub path_beq_iff : (a b : Bytes) → (path_beq a b ≡ true) ↔ (components a ≡ components b)
unfolding path_beq
path_beq_iff a b = components_beq_iff (components a) (components b)

pub path_beq_refl : (a : Bytes) → path_beq a a ≡ true
path_beq_refl a = (path_beq_iff a a).1 refl

pub path_beq_sym : (a b : Bytes) → path_beq a b ≡ true → path_beq b a ≡ true
path_beq_sym a b h = (path_beq_iff b a).1 (sym ((path_beq_iff a b).0 h))

-- Equal paths are equal to the same paths.
pub path_beq_right : (x a b : Bytes) → path_beq a b ≡ true → path_beq x a ≡ path_beq x b
unfolding path_beq
path_beq_right x a b h = ap (components_beq (components x)) ((path_beq_iff a b).0 h)

module _ {ℓ} {A : Type ℓ} where
  pub get_path-same :
      (a b : Bytes) (l : List (Bytes × A)) → path_beq a b ≡ true → get_path a l ≡ get_path b l
  unfolding get_path
  get_path-same a b [] h = refl
  get_path-same a b ((k, v) ∷ more) h = rw (path_beq_right k a b h, get_path-same a b more h) refl

  pub insert_path-fresh :
      (p : Bytes) (v : A) (l : List (Bytes × A))
      → get_path p l ≡ none
      → insert_path p v l ≡ l ++ (p, v) ∷ []
  unfolding get_path insert_path
  insert_path-fresh p v [] h = refl
  insert_path-fresh p v ((k, w) ∷ more) h = ground (arith, insert_path-fresh p v more)

  pub get_path-append :
      (q p : Bytes) (v : A) (l : List (Bytes × A))
      → get_path q l ≡ none
      → path_beq p q ≡ false
      → get_path q (l ++ (p, v) ∷ []) ≡ none
  unfolding get_path
  get_path-append q p v [] h hp = rw hp refl
  get_path-append q p v ((k, w) ∷ more) h hp = ground (arith, get_path-append q p v more)

pub is_on_chain-same :
    (a b : Bytes) (chain : List Bytes)
    → path_beq a b ≡ true
    → is_on_chain a chain ≡ is_on_chain b chain
unfolding is_on_chain
is_on_chain-same a b [] h = refl
is_on_chain-same a b (c ∷ chain) h =
    rw (path_beq_right c a b h) (ap (λ t. path_beq c b || t) (is_on_chain-same a b chain h))

pub is_on_chain-head : (a : Bytes) (chain : List Bytes) → is_on_chain a (a ∷ chain) ≡ true
unfolding is_on_chain
is_on_chain-head a chain = rw (path_beq_refl a) refl

pub is_on_chain-tail :
    (a c : Bytes) (chain : List Bytes)
    → is_on_chain a chain ≡ true
    → is_on_chain a (c ∷ chain) ≡ true
unfolding is_on_chain
is_on_chain-tail a c chain h = ground arith

-- A path on a chain is none that is not on it.
pub off_chain :
    (c q : Bytes) (chain : List Bytes)
    → is_on_chain c chain ≡ false
    → is_on_chain q chain ≡ true
    → path_beq c q ≡ false
off_chain c q chain off on = elim (Bool-cases (path_beq c q)) [
  | inl same ↦ absurd (let e = is_on_chain-same c q chain same in ground arith)
  | inr other ↦ other
]

-- One list begins with the other.
is_prefix_iff :
    (rs ts : List Component)
    → (is_prefix rs ts ≡ true) ↔ ((rest : List Component) × (ts ≡ rs ++ rest))
unfolding is_prefix
is_prefix_iff [] ts = (λ h. (ts, refl), λ h. refl)
is_prefix_iff (r ∷ rs) [] = (λ h. cc, λ (rest, e). cc)
is_prefix_iff (r ∷ rs) (t ∷ ts) = (
  (λ h. elim (Bool-cases (r == t)) [
    | inl same ↦
        let (rest, e) = (is_prefix_iff rs ts).0 (rw same at h) in
        (rest, ap₂ (◌∷◌) (sym ((component_beq_iff r t).0 same)) e)
    | inr other ↦ absurd (ground (arith, h, other))
  ]),
  (λ (rest, e).
      let same : r == t ≡ true = (component_beq_iff r t).1 (cc) in
      rw same ((is_prefix_iff rs ts).1 (rest, cc))),
)

-- A path lies within the root exactly where its components begin with those of the root.
pub path_within_root_iff :
    (root path : Bytes)
    → (path_within_root root path ≡ true)
      ↔ ((rest : List Component) × (components path ≡ components root ++ rest))
unfolding path_within_root
path_within_root_iff root path = is_prefix_iff (components root) (components path)

path_beq_left : (a b x : Bytes) → path_beq a b ≡ true → path_beq a x ≡ path_beq b x
unfolding path_beq
path_beq_left a b x h = ap (λ cs. components_beq cs (components x)) ((path_beq_iff a b).0 h)

apart : (k p q : Bytes) → path_beq k p ≡ false → path_beq k q ≡ true → path_beq p q ≡ false
apart k p q other found = elim (Bool-cases (path_beq p q)) [
  | inl same ↦ absurd (let e = path_beq_right k p q same in ground arith)
  | inr off ↦ off
]

module _ {ℓ} {A : Type ℓ} where
  pub get_path-insert_path :
      (p q : Bytes) (v : A) (l : List (Bytes × A))
      → get_path q (insert_path p v l) ≡ (if path_beq p q then some v else get_path q l)
  unfolding get_path insert_path
  get_path-insert_path p q v [] = refl
  get_path-insert_path p q v ((k, w) ∷ more) = elim (Bool-cases (path_beq k p)) [
    | inl same ↦ rw (same, path_beq_left k p q same) (ground arith)
    | inr other ↦ rw other (elim (Bool-cases (path_beq k q)) [
      | inl found ↦ rw found (rw (apart k p q other found) refl)
      | inr off ↦ rw off (get_path-insert_path p q v more)
    ])
  ]
