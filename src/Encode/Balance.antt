-- ===== src/Encode/Balance.antt =====
-- rust/src/ser.rs: the calls of serde on a serializer, in any order that its types allow, the calls
-- that fail among them: a client may pass over an error and call again.
use skg.Base.{ℕ, suc, ◌+◌, ◌≤◌, max, Bool, some, Bytes, nat_eq, length, ◌≡◌, ◌≢◌, refl, ap, arith}
use skg.Model.{Value}
use skg.Result.{ok, err, out_of_fuel}
use skg.Encode.{
  EncodeError, Frame, Serializer, new_serializer, attach, set_key, enter, end_frame, finish_variant,
  max_depth,
}
use skg.Encode.Methods.{skip_field, serialize_struct_variant}
use skg.Encode.Steps.{
  Kept, Down, Refused, left_by, Leaves-ok, Leaves-err, Leaves-left_by, Leaves-out_of_fuel,
  set_key-Kept, attach-Kept, skip_field-Kept, enter-Up, end_frame-Down, finish_variant-Closed,
  serialize_struct_variant-Up,
}

-- The serializers that calls lead to from one at a depth, with how many containers are open, how many
-- of them are struct variants, and how many openings were refused. A container is closed once, as its
-- builder is consumed, also by a closing that fails.
pub data Reached (base : ℕ) : ℕ → ℕ → ℕ → Serializer → Type 0 where
  started : Reached base 0 0 0 (record new_serializer { depth = base })
  attached :
      {n v f : ℕ} {s s' : Serializer} (value : Value)
      → Reached base n v f s
      → left_by (attach value s) ≡ some s'
      → Reached base n v f s'
  keyed :
      {n v f : ℕ} {s s' : Serializer} (k : Bytes)
      → Reached base n v f s
      → left_by (set_key s.stack k s) ≡ some s'
      → Reached base n v f s'
  slotted :
      {n v f : ℕ} {s : Serializer} (slot : Bool)
      → Reached base n v f s
      → Reached base n v f (record s { key_slot = slot })
  skipped :
      {n v f : ℕ} {s s' : Serializer}
      → Reached base n v f s
      → left_by (skip_field s) ≡ some s'
      → Reached base n v f s'
  opened :
      {n v f : ℕ} {s s' : Serializer} (frame : Frame)
      → Reached base n v f s
      → enter frame s ≡ ok s'
      → Reached base (suc n) v f s'
  refused :
      {n v f : ℕ} {s s' : Serializer} (frame : Frame) (e : EncodeError)
      → Reached base n v f s
      → enter frame s ≡ err (e, s')
      → Reached base n v (suc f) s'
  opened_variant :
      {n v f : ℕ} {s s' : Serializer} (name : Bytes)
      → Reached base n v f s
      → serialize_struct_variant name s ≡ ok s'
      → Reached base (suc n) (suc v) f s'
  refused_variant :
      {n v f : ℕ} {s s' : Serializer} (name : Bytes) (e : EncodeError)
      → Reached base n v f s
      → serialize_struct_variant name s ≡ err (e, s')
      → Reached base n v (suc f) s'
  closed :
      {n v f : ℕ} {s s' : Serializer}
      → Reached base (suc n) v f s
      → left_by (end_frame s) ≡ some s'
      → Reached base n v f s'
  closed_variant :
      {n v f : ℕ} {s s' : Serializer}
      → Reached base (suc n) (suc v) f s
      → left_by (finish_variant s) ≡ some s'
      → Reached base n v f s'

-- The depth counts the frames and the refused openings, and what is open has a frame and a name.
pub record Balanced (base n v f : ℕ) (s : Serializer) : Type 0 where
  pub depth_counts : s.depth ≡ base + f + length s.stack
  pub frames_fit : base + length s.stack ≤ max base max_depth
  pub framed : n ≤ length s.stack
  pub named : v ≤ length s.pending_variants

Kept-Balanced :
    {base n v f : ℕ} {s s' : Serializer}
    → Kept s s'
    → Balanced base n v f s
    → Balanced base n v f s'
Kept-Balanced k h = record {
  depth_counts = omega (arith, k.depth_kept, k.frames_kept, h.depth_counts);
  frames_fit = omega (arith, k.frames_kept, h.frames_fit);
  framed = omega (arith, k.frames_kept, h.framed);
  named = omega (arith, ap length k.names_kept, h.named);
}

Refused-Balanced :
    {base n v f : ℕ} {s s' : Serializer}
    → Refused s s'
    → Balanced base n v f s
    → Balanced base n v (suc f) s'
Refused-Balanced k h = record {
  depth_counts = omega (arith, k.depth_up, k.frames_kept, h.depth_counts);
  frames_fit = omega (arith, k.frames_kept, h.frames_fit);
  framed = omega (arith, k.frames_kept, h.framed);
  named = omega (arith, ap length k.names_kept, h.named);
}

Up-Balanced :
    {base n v v' f : ℕ} {s s' : Serializer}
    → s'.depth ≡ suc s.depth
    → s'.depth ≤ max_depth
    → length s'.stack ≡ suc (length s.stack)
    → length s'.pending_variants + v ≡ length s.pending_variants + v'
    → Balanced base n v f s
    → Balanced base (suc n) v' f s'
Up-Balanced up fits frames names h = record {
  depth_counts = omega (arith, up, frames, h.depth_counts);
  frames_fit = omega (arith, up, fits, frames, h.depth_counts);
  framed = omega (arith, frames, h.framed);
  named = omega (arith, names, h.named);
}

Down-Balanced :
    {base n v v' f : ℕ} {s s' : Serializer}
    → Down s s'
    → length s.pending_variants + v' ≤ length s'.pending_variants + v
    → Balanced base (suc n) v f s
    → Balanced base n v' f s'
Down-Balanced down names h = record {
  depth_counts = omega (arith, down.depth_down, down.frames_down, h.depth_counts);
  frames_fit = omega (arith, down.frames_down, h.frames_fit);
  framed = omega (arith, down.frames_down, h.framed);
  named = omega (arith, names, h.named);
}

-- Whatever calls lead to a serializer, failed ones among them, its depth counts its frames and the
-- refused openings from the depth that it began at, its frames go no deeper than 128 or that depth, and
-- what is open has a frame and, if a struct variant, a name.
pub Reached-Balanced :
    (base n v f : ℕ) (s : Serializer) → Reached base n v f s → Balanced base n v f s
Reached-Balanced base n v f s started = record {
  depth_counts = omega arith;
  frames_fit = omega arith;
  framed = omega arith;
  named = omega arith;
}
Reached-Balanced base n v f s' (attached {s = s} value r e) =
    Kept-Balanced (Leaves-left_by (attach-Kept value s) e) (Reached-Balanced base n v f s r)
Reached-Balanced base n v f s' (keyed {s = s} k r e) =
    Kept-Balanced (Leaves-left_by (set_key-Kept s.stack k s refl) e)
      (Reached-Balanced base n v f s r)
Reached-Balanced base n v f s' (slotted {s = s} slot r) =
    Kept-Balanced (record { depth_kept = refl; frames_kept = refl; names_kept = refl })
      (Reached-Balanced base n v f s r)
Reached-Balanced base n v f s' (skipped {s = s} r e) =
    Kept-Balanced (Leaves-left_by (skip_field-Kept s) e) (Reached-Balanced base n v f s r)
Reached-Balanced base n v f s' (opened {n = m} {s = s} frame r e) =
    let up = Leaves-ok (enter-Up frame s) e in
    Up-Balanced up.depth_up up.depth_fits up.frames_up (ap (λ l. length l + v) up.names_kept)
      (Reached-Balanced base m v f s r)
Reached-Balanced base n v f s' (refused {f = g} {s = s} frame d r e) =
    Refused-Balanced (Leaves-err (enter-Up frame s) e) (Reached-Balanced base n v g s r)
Reached-Balanced base n v f s' (opened_variant {n = m} {v = w} {s = s} name r e) =
    let (up, fits, frames, names) = Leaves-ok (serialize_struct_variant-Up name s) e in
    Up-Balanced up fits frames (omega (arith, names)) (Reached-Balanced base m w f s r)
Reached-Balanced base n v f s' (refused_variant {f = g} {s = s} name d r e) =
    Refused-Balanced (Leaves-err (serialize_struct_variant-Up name s) e)
      (Reached-Balanced base n v g s r)
Reached-Balanced base n v f s' (closed {s = s} r e) =
    let h = Reached-Balanced base (suc n) v f s r in
    let (down, same) =
      Leaves-left_by
        (end_frame-Down s (omega (arith, h.framed)) (omega (arith, h.framed, h.depth_counts))) e in
    Down-Balanced down (omega (arith, ap length same)) h
Reached-Balanced base n v f s' (closed_variant {s = s} r e) =
    let h = Reached-Balanced base (suc n) (suc v) f s r in
    let (down, names) =
      Leaves-left_by
        (finish_variant-Closed s (omega (arith, h.framed))
          (omega (arith, h.framed, h.depth_counts)))
        e in
    Down-Balanced down (omega (arith, names)) h

-- Whatever calls lead to a serializer in which a container is open, failed ones among them, closing it
-- as a container or as a struct variant meets no counter that overflows: it gives a serializer or an
-- error.
pub end_frame-Reached :
    (base n v f : ℕ) (s : Serializer)
    → Reached base (suc n) v f s
    → (end_frame s ≢ out_of_fuel) × (finish_variant s ≢ out_of_fuel)
end_frame-Reached base n v f s r =
    let h = Reached-Balanced base (suc n) v f s r in
    let deep : suc 0 ≤ s.depth = omega (arith, h.framed, h.depth_counts) in
    (
      Leaves-out_of_fuel (end_frame-Down s (omega (arith, h.framed)) deep),
      Leaves-out_of_fuel (finish_variant-Closed s (omega (arith, h.framed)) deep),
    )
