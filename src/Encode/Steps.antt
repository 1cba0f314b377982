-- ===== src/Encode/Steps.antt =====
-- rust/src/ser.rs: what the serializer's functions do to its depth, its frames and its variants.
use skg.Base.{
  ◌-◌, Bool, subst, ◌≢◌, if◌then◌else◌, suc, ◌+◌, ◌<◌, ◌≤◌, true, false, Option, none, some, List,
  [], ◌∷◌, Bytes, ltb, ◌==◌, nat_eq, length, ◌≡◌, refl, ap, ◌∙◌, arith,
}
use skg.Model.{Value, Values, string}
use skg.Result.{
  ok, err, out_of_fuel, bind, Ensures, holds, failed, Ensures-bind, Ensures-if, Ensures-out_of_fuel,
}
use skg.Encode.{
  EncodeError, Encoded, Called, with_serializer, Frame, array_frame, map_frame, Serializer, attach,
  attach_key, attach_value, attach_root, set_key, enter, leave, leave_at, end_frame, frame_value,
  check_homogeneous, close_variant, finish_variant, homogeneous_from, single_entry, max_depth,
}
use skg.Encode.Methods.{skip_field, without_key, serialize_struct_variant}

-- Whether a call fails or gives something, what it leaves: a serializer with the one property, or what
-- has the other.
pub data Leaves {ℓ κ} {A : Type ℓ} (P : Serializer → Type 0) (Q : A → Type κ)
    : Called A → Type (ℓ ⊔ κ) where
  fails : (e : EncodeError) {s : Serializer} → P s → Leaves P Q (err (e, s))
  gives : {a : A} → Q a → Leaves P Q (ok a)

pub Leaves-bind {ℓ κ ℓ' κ'} :
    {A : Type ℓ} {B : Type κ} {P : Serializer → Type 0} {Q : A → Type ℓ'} {R : B → Type κ'}
    {first : Called A} {next : A → Called B}
    → Leaves P Q first
    → ((a : A) → Q a → Leaves P R (next a))
    → Leaves P R (bind first next)
Leaves-bind (fails e h) step = fails e h
Leaves-bind (gives {a} here) step = step a here

module _ {ℓ κ} {A : Type ℓ} {P : Serializer → Type 0} {Q : A → Type κ} where
  pub Leaves-map {κ'} :
      {P' : Serializer → Type 0} {Q' : A → Type κ'} {run : Called A}
      → Leaves P Q run
      → ((s : Serializer) → P s → P' s)
      → ((a : A) → Q a → Q' a)
      → Leaves P' Q' run
  Leaves-map (fails e {s} h) kp kq = fails e (kp s h)
  Leaves-map (gives {a} h) kp kq = gives (kq a h)

  pub Leaves-if :
      (test : Bool) {m n : Called A}
      → (test ≡ true → Leaves P Q m)
      → (test ≡ false → Leaves P Q n)
      → Leaves P Q (if test then m else n)
  Leaves-if false hm hn = hn refl
  Leaves-if true hm hn = hm refl

  pub Leaves-ok : {run : Called A} {a : A} → Leaves P Q run → run ≡ ok a → Q a
  Leaves-ok (fails e h) same = cc
  Leaves-ok (gives h) same = subst Q (cc) h

  pub Leaves-err :
      {run : Called A} {e : EncodeError} {s : Serializer} → Leaves P Q run → run ≡ err (e, s) → P s
  Leaves-err (fails d h) same = subst P (cc) h
  Leaves-err (gives h) same = cc

  pub Leaves-out_of_fuel : {run : Called A} → Leaves P Q run → run ≢ out_of_fuel
  Leaves-out_of_fuel (fails e h) = cc
  Leaves-out_of_fuel (gives h) = cc

-- The serializer after a call, also one that failed.
abbrev pub left_by : Called Serializer → Option Serializer
left_by (ok s) = some s
left_by (err (e, s)) = some s
left_by out_of_fuel = none

pub Leaves-left_by :
    {P : Serializer → Type 0} {run : Called Serializer} {s : Serializer}
    → Leaves P P run
    → left_by run ≡ some s
    → P s
Leaves-left_by {P} (fails e h) same = subst P (cc) h
Leaves-left_by {P} (gives h) same = subst P (cc) h

-- What a step keeps.
pub record Kept (s s' : Serializer) : Type 0 where
  pub depth_kept : s'.depth ≡ s.depth
  pub frames_kept : length s'.stack ≡ length s.stack
  pub names_kept : s'.pending_variants ≡ s.pending_variants

Kept-refl : (s : Serializer) → Kept s s
Kept-refl s = record { depth_kept = refl; frames_kept = refl; names_kept = refl }

pub set_key-Kept :
    (frames : List Frame) (k : Bytes) (s : Serializer)
    → frames ≡ s.stack
    → Leaves (Kept s) (Kept s) (set_key frames k s)
unfolding set_key
set_key-Kept [] k s e = fails _ (Kept-refl s)
set_key-Kept (array_frame items ∷ frames) k s e = fails _ (Kept-refl s)
set_key-Kept (map_frame es p sort ∷ frames) k s e =
    gives (record { depth_kept = refl; frames_kept = ap length e; names_kept = refl })

attach_root-Kept :
    (root : Option Value) (v : Value) (s : Serializer)
    → Leaves (Kept s) (Kept s) (attach_root root v s)
unfolding attach_root
attach_root-Kept none v s =
    gives (record { depth_kept = refl; frames_kept = refl; names_kept = refl })
attach_root-Kept (some w) v s = fails _ (Kept-refl s)

attach_value-Kept :
    (frames : List Frame) (v : Value) (s : Serializer)
    → frames ≡ s.stack
    → Leaves (Kept s) (Kept s) (attach_value frames v s)
unfolding attach_value
attach_value-Kept [] v s e = attach_root-Kept s.root v s
attach_value-Kept (array_frame items ∷ frames) v s e =
    gives (record { depth_kept = refl; frames_kept = ap length e; names_kept = refl })
attach_value-Kept (map_frame es none sort ∷ frames) v s e = fails _ (Kept-refl s)
attach_value-Kept (map_frame es (some k) sort ∷ frames) v s e =
    gives (record { depth_kept = refl; frames_kept = ap length e; names_kept = refl })

attach_key-Kept : (v : Value) (s : Serializer) → Leaves (Kept s) (Kept s) (attach_key v s)
unfolding attach_key
attach_key-Kept (string k) s = set_key-Kept s.stack k s refl
attach_key-Kept _ s = fails _ (Kept-refl s)

off-Kept : (s s' : Serializer) → Kept (record s { key_slot = false }) s' → Kept s s'
off-Kept s s' h = record {
  depth_kept = h.depth_kept;
  frames_kept = h.frames_kept;
  names_kept = h.names_kept;
}

pub attach-Kept : (v : Value) (s : Serializer) → Leaves (Kept s) (Kept s) (attach v s)
unfolding attach
attach-Kept v s =
    Leaves-if s.key_slot
      (λ _.
        Leaves-map (attach_key-Kept v (record s { key_slot = false })) (off-Kept s) (off-Kept s))
      (λ _. attach_value-Kept s.stack v s refl)

without_key-length : (frames : List Frame) → length (without_key frames) ≡ length frames
unfolding without_key
without_key-length [] = refl
without_key-length (array_frame items ∷ frames) = refl
without_key-length (map_frame es p sort ∷ frames) = refl

pub skip_field-Kept : (s : Serializer) → Leaves (Kept s) (Kept s) (skip_field s)
unfolding skip_field
skip_field-Kept s =
    gives
      (record { depth_kept = refl; frames_kept = without_key-length s.stack; names_kept = refl })

-- A step up.
pub record Up (s s' : Serializer) : Type 0 where
  pub depth_up : s'.depth ≡ suc s.depth
  pub depth_fits : s'.depth ≤ max_depth
  pub frames_up : length s'.stack ≡ suc (length s.stack)
  pub names_kept : s'.pending_variants ≡ s.pending_variants

-- A refused step up: the depth is counted, and there is no frame for it.
pub record Refused (s s' : Serializer) : Type 0 where
  pub depth_up : s'.depth ≡ suc s.depth
  pub frames_kept : length s'.stack ≡ length s.stack
  pub names_kept : s'.pending_variants ≡ s.pending_variants

pub enter-Up : (frame : Frame) (s : Serializer) → Leaves (Refused s) (Up s) (enter frame s)
unfolding enter
enter-Up frame s =
    Leaves-if (ltb max_depth (s.depth + 1))
      (λ _. fails _ (record { depth_up = omega arith; frames_kept = refl; names_kept = refl }))
      λ room. gives (record {
        depth_up = omega arith;
        depth_fits = ground arith;
        frames_up = refl;
        names_kept = refl;
      })

-- A step down.
pub record Down (s s' : Serializer) : Type 0 where
  pub depth_down : suc s'.depth ≡ s.depth
  pub frames_down : suc (length s'.stack) ≡ length s.stack

-- What leaving a container leaves.
abbrev Left : Serializer → Serializer → Type 0
Left s s' = Down s s' × (s'.pending_variants ≡ s.pending_variants)

abbrev LeftPair : Serializer → Value × Serializer → Type 0
LeftPair s (v, s') = Left s s'

with_serializer-Left :
    (r : Encoded Value) (s s' : Serializer)
    → r ≢ out_of_fuel
    → Left s s'
    → Leaves (Left s) (LeftPair s) (with_serializer s' r)
with_serializer-Left (ok v) s s' ends h = gives h
with_serializer-Left (err e) s s' ends h = fails e h
with_serializer-Left out_of_fuel s s' ends h = absurd (ends refl)

check_homogeneous-ends : (items : Values) → Ensures (λ u. Unit {0}) (check_homogeneous items)
unfolding check_homogeneous
check_homogeneous-ends items =
    Ensures-if (homogeneous_from none items) (λ _. holds tt) (λ _. failed _)

frame_value-ends : (frame : Frame) → Ensures (λ v. Unit {0}) (frame_value frame)
unfolding frame_value
frame_value-ends (array_frame items) = Ensures-bind (check_homogeneous-ends items) λ u h. holds tt
frame_value-ends (map_frame es p true) = holds tt
frame_value-ends (map_frame es p false) = holds tt

leave_at-Down :
    (frames : List Frame) (s s₀ : Serializer)
    → length frames ≡ length s₀.stack
    → 0 < length s₀.stack
    → suc s.depth ≡ s₀.depth
    → s.pending_variants ≡ s₀.pending_variants
    → Leaves (Left s₀) (LeftPair s₀) (leave_at frames s)
unfolding leave_at
leave_at-Down [] s s₀ e h hd hn = absurd (omega (arith, h, e))
leave_at-Down (frame ∷ frames) s s₀ e h hd hn =
    with_serializer-Left (frame_value frame) s₀ (record s { stack = frames })
      (Ensures-out_of_fuel (frame_value-ends frame))
      (record { depth_down = hd; frames_down = e }, hn)

leave-Down :
    (s : Serializer) → 0 < length s.stack → 0 < s.depth → Leaves (Left s) (LeftPair s) (leave s)
unfolding leave
leave-Down s h hd =
    let deep : (s.depth == 0) ≡ false = ground (arith, hd) in
    rw deep
      (leave_at-Down s.stack (record s { depth = s.depth - 1 }) s refl h (omega (arith, hd)) refl)

Left-Kept : (s s₁ s' : Serializer) → Left s s₁ → Kept s₁ s' → Left s s'
Left-Kept s s₁ s' (down, same) kept = (
  record {
    depth_down = omega (arith, down.depth_down, kept.depth_kept);
    frames_down = omega (arith, down.frames_down, kept.frames_kept);
  },
  kept.names_kept ∙ same,
)

-- A container is closed, also where that fails: one frame less, and the names as they were.
pub end_frame-Down :
    (s : Serializer) → 0 < length s.stack → 0 < s.depth → Leaves (Left s) (Left s) (end_frame s)
unfolding end_frame
end_frame-Down s h hd = Leaves-bind (leave-Down s h hd) λ (v, s₁) left.
    Leaves-map (attach-Kept v s₁) (λ s' kept. Left-Kept s s₁ s' left kept)
      (λ s' kept. Left-Kept s s₁ s' left kept)

-- What closing a struct variant leaves: one frame less, and one name less at most.
abbrev pub Closed : Serializer → Serializer → Type 0
Closed s s' = Down s s' × (length s.pending_variants ≤ suc (length s'.pending_variants))

close_variant-Closed :
    (names : List Bytes) (v : Value) (s s₀ : Serializer)
    → names ≡ s.pending_variants
    → Left s₀ s
    → Leaves (Closed s₀) (Closed s₀) (close_variant names v s)
unfolding close_variant
close_variant-Closed [] v s s₀ e (down, same) = fails _ (down, omega (arith, ap length same))
close_variant-Closed (name ∷ names) v s s₀ e (down, same) =
    let popped = record s { pending_variants = names } in
    let closes : (s' : Serializer) → Kept popped s' → Closed s₀ s' = λ s' kept. (
      record {
        depth_down = omega (arith, down.depth_down, kept.depth_kept);
        frames_down = omega (arith, down.frames_down, kept.frames_kept);
      },
      omega (arith, ap length same, ap length e, ap length kept.names_kept),
    ) in
    Leaves-map (attach-Kept (single_entry name v) popped) closes closes

-- A struct variant is closed, also where that fails.
pub finish_variant-Closed :
    (s : Serializer)
    → 0 < length s.stack
    → 0 < s.depth
    → Leaves (Closed s) (Closed s) (finish_variant s)
unfolding finish_variant
finish_variant-Closed s h hd =
    Leaves-bind
      (Leaves-map (leave-Down s h hd) (λ s' (down, same). (down, omega (arith, ap length same)))
        (λ (v, s') left. left))
      λ (v, s₁) left. close_variant-Closed s₁.pending_variants v s₁ s refl left

pub serialize_struct_variant-Up :
    (name : Bytes) (s : Serializer)
    → Leaves
        (Refused s)
        (λ s'.
          (s'.depth ≡ suc s.depth)
          × (s'.depth ≤ max_depth)
          × (length s'.stack ≡ suc (length s.stack))
          × (length s'.pending_variants ≡ suc (length s.pending_variants)))
        (serialize_struct_variant name s)
unfolding serialize_struct_variant
serialize_struct_variant-Up name s = Leaves-bind (enter-Up (map_frame [] none false) s) λ s₁ up.
    gives (up.depth_up, up.depth_fits, up.frames_up, ap (λ l. suc (length l)) up.names_kept)
