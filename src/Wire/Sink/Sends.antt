-- ===== src/Wire/Sink/Sends.antt =====
-- What goes out, however the operating system splits the writes.
use ssh_proxy.Base.{
  ℕ, zero, suc, ◌+◌, ◌-◌, ◌≤◌, ◌<◌, ◌≡◌, ◌≢◌, ◌⊎◌, refl, sym, ap, ◌∙◌, Bool, true, false, ◌||◌,
  ◌==◌, ◌++◌, [], Result, ok, err, ltb, if◌then◌else◌, length, length-append, length-drop, take,
  drop, drop-add, drop-append, drop_of_le, take-append-drop, append-nil, append_assoc, min,
  Bool-cases, inl, inr, arith,
}
use ssh_proxy.Wire.Bytes.{Bytes}
use ssh_proxy.Wire.Cursor.{FrameError, write_zero, stuck}
use ssh_proxy.Wire.Sink.{
  Answer, accepts, refuses, Peer, Sink, Write, write_vectored, offered, write_loop,
  write_all_vectored_payload, ◌>>=◌, fail,
}

-- The peer, at some write, reports an error or takes nothing.
abbrev pub IsUnwilling : Peer → Type 0
IsUnwilling peer = (k : ℕ) × ((peer.answer k ≡ refuses) ⊎ (peer.answer k ≡ accepts 0))

-- A success has sent the whole of `goal`. A failure has sent a part of its front, is the peer's
-- doing, and is no lack of fuel.
abbrev pub Sent {κ} : {A : Type κ} → Peer → Bytes → Sink → Result FrameError A → Type 0
Sent peer goal s (ok a) = s.out ≡ goal
Sent peer goal s (err e) =
    ((rest : Bytes) × (s.out ++ rest ≡ goal)) × (e ≢ stuck) × IsUnwilling peer

-- What is still to go out.
abbrev left : Bytes → Bytes → ℕ → ℕ → Bytes
left header payload ho po = drop ho header ++ drop po payload

offered-left :
    (peer : Peer) (header payload : Bytes) (ho po : ℕ)
    → offered peer header payload ho po ≡ left header payload ho po
unfolding offered
offered-left peer header payload ho po = elim (Bool-cases (ltb ho (length header))) [
  | inl h ↦ elim (Bool-cases (ltb po (length payload))) [
    | inl p ↦ rw (h, p)
    | inr p ↦
        rw (h, p, drop_of_le po payload (ground (arith, p))) (sym (append-nil (drop ho header)))
  ]
  | inr h ↦ rw (h, drop_of_le ho header (ground (arith, h)))
]

-- The two ways in which the offsets move on by `n` octets.
left_header :
    (header payload : Bytes) (ho po n : ℕ)
    → n < length header - ho
    → left header payload (ho + n) po ≡ drop n (left header payload ho po)
left_header header payload ho po n h =
    let short : n - length (drop ho header) ≡ 0 = omega (arith, length-drop ho header) in
    rw (drop-add ho n header, drop-append n (drop ho header) (drop po payload), short)

left_payload :
    (header payload : Bytes) (ho po n : ℕ)
    → length header - ho ≤ n
    → left header payload (length header) (po + (n - (length header - ho)))
      ≡ drop n (left header payload ho po)
left_payload header payload ho po n h =
    let past : n - length (drop ho header) ≡ n - (length header - ho) =
      omega (arith, length-drop ho header) in
    rw (
      drop-append n (drop ho header) (drop po payload),
      past,
      drop_of_le n (drop ho header) (omega (arith, length-drop ho header)),
      drop_of_le (length header) header (omega arith),
      drop-add po (n - (length header - ho)) payload,
    )

abbrev is_left : Bytes → Bytes → ℕ → ℕ → Bool
is_left header payload ho po = ltb ho (length header) || ltb po (length payload)

left_done :
    (header payload : Bytes) (ho po : ℕ)
    → is_left header payload ho po ≡ false
    → left header payload ho po ≡ []
left_done header payload ho po e =
    rw (drop_of_le ho header (ground (arith, e)), drop_of_le po payload (ground (arith, e)))

left_more :
    (header payload : Bytes) (ho po : ℕ)
    → is_left header payload ho po ≡ true
    → 0 < length (left header payload ho po)
left_more header payload ho po e = ground (
  arith,
  length-append (drop ho header) (drop po payload),
  length-drop ho header,
  length-drop po payload,
)

Answer-cases : (a : Answer) → (a ≡ refuses) ⊎ ((n : ℕ) × (a ≡ accepts n))
Answer-cases refuses = inl refl
Answer-cases (accepts n) = inr (n, refl)

module _ (peer : Peer) (header payload : Bytes) where
  abbrev Goes : ℕ → Type 0
  Goes fuel =
      (ho po writes : ℕ) (s : Sink) (goal : Bytes)
      → s.out ++ left header payload ho po ≡ goal
      → length (left header payload ho po) ≤ fuel
      → let (s', r) = write_loop peer fuel header payload ho po writes s in Sent peer goal s' r

  -- The rest of a round that sent `n` octets.
  abbrev go_on : ℕ → ℕ → ℕ → ℕ → ℕ → Write ℕ
  go_on fuel ho po writes n =
      let whole = ltb n (length header - ho) in
      let rest =
        write_loop peer fuel header payload (if whole then ho + n else length header)
          (if whole then po else po + (n - (length header - ho))) (writes + 1) in
      if n == 0 then fail write_zero else rest

  moved :
      (ho po n : ℕ)
      → let whole = ltb n (length header - ho) in
        left header payload
          (if whole then ho + n else length header)
          (if whole then po else po + (n - (length header - ho)))
        ≡ drop n (left header payload ho po)
  moved ho po n = elim (Bool-cases (ltb n (length header - ho))) [
    | inl h ↦ rw h (left_header header payload ho po n (ground (arith, h)))
    | inr p ↦ rw p (left_payload header payload ho po n (ground (arith, p)))
  ]

  go_on-Sent :
      (fuel : ℕ) (ih : Goes fuel) (ho po writes n : ℕ) (s : Sink) (goal : Bytes)
      → s.out ++ drop n (left header payload ho po) ≡ goal
      → length (left header payload ho po) ≤ suc fuel
      → (n ≡ 0 → IsUnwilling peer)
      → let (s', r) = go_on fuel ho po writes n s in Sent peer goal s' r
  go_on-Sent fuel ih ho po writes n s goal e l blame = elim (Bool-cases (n == 0)) [
    | inl z ↦ rw z ((_, e), (λ x. cc), blame (ground (arith, z)))
    | inr some_sent ↦
        let shorter : length (drop n (left header payload ho po)) ≤ fuel =
          ground (arith, length-drop n (left header payload ho po)) in
        rw some_sent
          (ih _ _ (writes + 1) s goal (rw (moved ho po n) e) (rw (moved ho po n) shorter))
  ]

  round-Sent :
      (fuel : ℕ) (ih : Goes fuel) (ho po writes : ℕ) (s : Sink) (goal : Bytes)
      → is_left header payload ho po ≡ true
      → s.out ++ left header payload ho po ≡ goal
      → length (left header payload ho po) ≤ suc fuel
      → let (s', r) =
          (write_vectored peer (offered peer header payload ho po) >>= go_on fuel ho po writes) s in
        Sent peer goal s' r
  unfolding write_vectored
  round-Sent fuel ih ho po writes s goal more e l = elim (Answer-cases (peer.answer s.calls)) [
    | inl no_more ↦ rw no_more ((_, e), (λ x. cc), (s.calls, inl no_more))
    | inr (n, yes_more) ↦
        let rest : Bytes = left header payload ho po in
        let n' : ℕ = min n (length rest) in
        let sent =
          append_assoc s.out (take n' rest) (drop n' rest)
          ∙ ap (◌++◌ s.out) (take-append-drop n' rest)
          ∙ e in
        let nothing : n' ≡ 0 → IsUnwilling peer = λ z.
          let none_taken : n ≡ 0 = omega (arith, left_more header payload ho po more) in
          (s.calls, inr (yes_more ∙ ap accepts none_taken)) in
        rw (yes_more, offered-left peer header payload ho po)
          (go_on-Sent fuel ih ho po writes n' _ goal sent l nothing)
  ]

write_loop-Sent : (peer : Peer) (header payload : Bytes) (fuel : ℕ) → Goes peer header payload fuel
unfolding write_loop
write_loop-Sent peer header payload zero ho po writes s goal e l =
    elim (Bool-cases (is_left header payload ho po)) [
      | inl more ↦ absurd (omega (arith, left_more header payload ho po more))
      | inr done ↦
          rw done (
            sym (append-nil s.out)
            ∙ ap (◌++◌ s.out) (sym (left_done header payload ho po done))
            ∙ e)
    ]
write_loop-Sent peer header payload (suc fuel) ho po writes s goal e l =
    elim (Bool-cases (is_left header payload ho po)) [
      | inl more ↦ rw more (
          round-Sent peer header payload fuel (write_loop-Sent peer header payload fuel) ho po
            writes s goal more e l)
      | inr done ↦
          rw done (
            sym (append-nil s.out)
            ∙ ap (◌++◌ s.out) (sym (left_done header payload ho po done))
            ∙ e)
    ]

-- The vectored write of a header and a payload sends both, in order, whatever sizes the operating
-- system takes; on an error the octets that went out are a prefix of them, and the peer had refused.
pub write_all_vectored_payload-Sent :
    (peer : Peer) (header payload : Bytes) (s : Sink)
    → let (s', r) = write_all_vectored_payload peer header payload s in
      Sent peer (s.out ++ (header ++ payload)) s' r
unfolding write_all_vectored_payload
write_all_vectored_payload-Sent peer header payload s =
    write_loop-Sent peer header payload (length header + length payload) 0 0 0 s
      (s.out ++ (header ++ payload)) refl (omega (arith, length-append header payload))
