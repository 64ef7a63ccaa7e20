-- ===== src/Core/Control/Framed.antt =====
-- Control frames are read back: crates/ssh-proxy-protocol/src/protocol_core/codec.rs.
use ssh_proxy.Base.{
  ℕ, ◌≤◌, ◌<◌, ◌%◌, ◌≡◌, ◌≢◌, ◌⊎◌, refl, sym, true, false, Bool-cases, inl, inr, [], ◌∷◌, ◌++◌,
  Option, some, Option-cases, ok, err, ◌==◌, ltb, le→leb, length, length-append, take-append_self,
  drop-append_self, append_assoc, arith,
}
use ssh_proxy.Wire.Bytes.{
  Bytes, u16_mod, u32_mod, u16_be, u32_be, from_be, from_be-u16_be, from_be-u32_be,
}
use ssh_proxy.Core.Control.{
  ControlError, invalid_magic, unsupported_version, magic_unread, version_unread, length_unread,
  payload_unread, read_exact, same_octets, write_json_control_frame, read_json_control_frame,
}

read_exact-append :
    (e : ControlError) (n : ℕ) (xs ys : Bytes)
    → length xs ≡ n
    → read_exact e n (xs ++ ys) ≡ ok (xs, ys)
unfolding read_exact
read_exact-append e n xs ys h =
    rw
      (
        sym h,
        le→leb (length xs) (length (xs ++ ys)) (omega (arith, length-append xs ys)),
        take-append_self xs ys,
        drop-append_self xs ys,
      )
      refl

pub same_octets_refl : (s : Bytes) → same_octets s s ≡ true
unfolding same_octets
same_octets_refl [] = refl
same_octets_refl (a ∷ s) = ground (arith, same_octets_refl s)

-- Only equal octets are the same.
same_octets_eq : (s t : Bytes) → same_octets s t ≡ true → s ≡ t
unfolding same_octets
same_octets_eq [] [] e = refl
same_octets_eq [] (b ∷ t) e = cc
same_octets_eq (a ∷ s) [] e = cc
same_octets_eq (a ∷ s) (b ∷ t) e = elim (Bool-cases (a == b)) [
  | inl same ↦
      let heads : a ≡ b = ground arith in let tails = same_octets_eq s t (rw same at e) in cc
  | inr other ↦ cc (rw other at e)
]

module _ {T : Type 0} (to_vec : T → Option Bytes) (from_slice : Bytes → Option T) where
  -- What the JSON library encodes, it decodes to the same value.
  abbrev pub Decodes : Type 0
  Decodes =
      (value : T) (payload : Bytes) → to_vec value ≡ some payload → from_slice payload ≡ some value

  -- A frame that was written, and what it holds.
  abbrev Written : Bytes → ℕ → ℕ → T → Bytes → Type 0
  Written magic version max_len value frame =
      (payload : Bytes) × (to_vec value ≡ some payload)
      × (length payload ≤ max_len)
      × (frame ≡ magic ++ (u16_be version ++ (u32_be (length payload % u32_mod) ++ payload)))

  write_json_control_frame-Written :
      (magic : Bytes) (version max_len : ℕ) (value : T) (frame : Bytes)
      → write_json_control_frame to_vec magic version max_len value ≡ ok frame
      → Written magic version max_len value frame
  unfolding write_json_control_frame
  write_json_control_frame-Written magic version max_len value frame e =
      elim (Option-cases (to_vec value)) [
        | inl none_encoded ↦ cc (rw none_encoded at e)
        | inr (payload, encoded) ↦ elim (Bool-cases (ltb max_len (length payload))) [
          | inl long ↦ cc (rw (encoded, long) at e)
          | inr fits ↦
              let same : magic ++ (u16_be version ++ (u32_be (length payload % u32_mod) ++ payload))
                  ≡ frame =
                cc (rw (encoded, fits) at e) in
              (payload, encoded, ground arith, sym same)
        ]
      ]

  -- The octets of a frame with what follows it, part by part.
  abbrev laid_out : Bytes → ℕ → Bytes → Bytes → Bytes
  laid_out magic version payload rest =
      magic ++ (u16_be version ++ (u32_be (length payload % u32_mod) ++ (payload ++ rest)))

  read_laid_out :
      (magic : Bytes) (version max_len : ℕ) (value : T) (payload rest : Bytes)
      → length magic ≡ 4
      → version < u16_mod
      → max_len < u32_mod
      → length payload ≤ max_len
      → from_slice payload ≡ some value
      → read_json_control_frame from_slice magic version max_len
          (laid_out magic version payload rest)
        ≡ ok (value, rest)
  unfolding read_json_control_frame
  read_laid_out magic version max_len value payload rest four small bounded fits decoded =
      let size : from_be 0 (u32_be (length payload % u32_mod)) ≡ length payload =
        omega (arith, from_be-u32_be (length payload % u32_mod) (omega arith)) in
      let within : ltb max_len (length payload) ≡ false = ground arith in
      let itself : (version == version) ≡ true = ground arith in
      rw
        (
          read_exact-append magic_unread 4 magic
              (u16_be version ++ (u32_be (length payload % u32_mod) ++ (payload ++ rest))) four,
          same_octets_refl magic,
          read_exact-append version_unread 2 (u16_be version)
              (u32_be (length payload % u32_mod) ++ (payload ++ rest)) refl,
          from_be-u16_be version small,
          itself,
          read_exact-append length_unread 4 (u32_be (length payload % u32_mod)) (payload ++ rest)
              refl,
          size,
          within,
          read_exact-append payload_unread (length payload) payload rest refl,
          decoded,
        )
        refl

  -- A control frame that was written is read back by a reader with the same magic, version and limit:
  -- its value, with the octets behind it left in the stream. The magic has four octets, the version 16
  -- bits, the limit 32, and the JSON library decodes what it encodes.
  pub read_json_control_frame-write_json_control_frame :
      (magic : Bytes) (version max_len : ℕ) (value : T) (frame rest : Bytes)
      → Decodes
      → length magic ≡ 4
      → version < u16_mod
      → max_len < u32_mod
      → write_json_control_frame to_vec magic version max_len value ≡ ok frame
      → read_json_control_frame from_slice magic version max_len (frame ++ rest) ≡ ok (value, rest)
  read_json_control_frame-write_json_control_frame magic version max_len value frame rest decodes
        four small bounded e =
      let (payload, encoded, fits, same) =
        write_json_control_frame-Written magic version max_len value frame e in
      let parts : frame ++ rest ≡ laid_out magic version payload rest = rw same (
        append_assoc magic (u16_be version ++ (u32_be (length payload % u32_mod) ++ payload))
          rest) in
      rw parts (
        read_laid_out magic version max_len value payload rest four small bounded fits
          (decodes value payload encoded))

  -- A reader that expects another magic, or another version, refuses the frame by an error of its own,
  -- and decodes nothing.
  pub read_json_control_frame_refused :
      (magic magic' : Bytes) (version version' max_len max_len' : ℕ) (value : T)
      (frame rest : Bytes)
      → length magic ≡ 4
      → version < u16_mod
      → write_json_control_frame to_vec magic version max_len value ≡ ok frame
      → (magic ≢ magic') ⊎ ((magic ≡ magic') × (version ≢ version'))
      → (read_json_control_frame from_slice magic' version' max_len' (frame ++ rest)
          ≡ err invalid_magic)
        ⊎ (read_json_control_frame from_slice magic' version' max_len' (frame ++ rest)
            ≡ err (unsupported_version version))
  unfolding read_json_control_frame
  read_json_control_frame_refused magic magic' version version' max_len max_len' value frame rest
        four small e differ =
      let (payload, encoded, fits, same) =
        write_json_control_frame-Written magic version max_len value frame e in
      let parts : frame ++ rest ≡ laid_out magic version payload rest = rw same (
        append_assoc magic (u16_be version ++ (u32_be (length payload % u32_mod) ++ payload))
          rest) in
      let first =
        read_exact-append magic_unread 4 magic
          (u16_be version ++ (u32_be (length payload % u32_mod) ++ (payload ++ rest))) four in
      let second =
        read_exact-append version_unread 2 (u16_be version)
          (u32_be (length payload % u32_mod) ++ (payload ++ rest)) refl in
      elim (Bool-cases (same_octets magic magic')) [
        | inr other ↦ inl (rw (parts, first, other) refl)
        | inl equal ↦ elim differ [
          | inl magics ↦ absurd (magics (same_octets_eq magic magic' equal))
          | inr (magics, versions) ↦
              let apart : (version == version') ≡ false = ground arith in
              inr (rw (parts, first, equal, second, from_be-u16_be version small, apart) refl)
        ]
      ]
