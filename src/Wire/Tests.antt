-- ===== src/Wire/Tests.antt =====
-- Concrete runs of the data plane, and its theorems at concrete inputs.
use ssh_proxy.Base.{
  ℕ, ◌≡◌, refl, inl, inr, true, false, List, [], ◌∷◌, ◌++◌, some, Result, ok, err, length, drop,
  All, arith, ◌↔◌,
}
use ssh_proxy.Wire.Bytes.{Bytes, is_utf8, from_be}
use ssh_proxy.Wire.Cursor.{
  FrameError, trailing_bytes, new, read_u8, read_u16, read_bytes, read_string, is_empty,
  ensure_empty,
}
use ssh_proxy.Wire.Frame.{
  Frame, open_tcp, open_tcp_result, chunk, close, encode_into, decode, IsTyped, write_string,
}
use ssh_proxy.Wire.Frame.Payload.{decode-encode_into}
use ssh_proxy.Wire.Frame.Sound.{decode-IsTyped}
use ssh_proxy.Wire.Frame.Size.{encode_into_iff, HasShortTexts}
use ssh_proxy.Wire.Source.{read_chunks}
use ssh_proxy.Wire.Source.Chunks.{fetch, read_chunks-fetch}
use ssh_proxy.Wire.Reader.{read_frames}
use ssh_proxy.Wire.Sink.{
  Peer, Sink, accepts, write_all_vectored_payload, write_loop, write_vectored, offered,
}
use ssh_proxy.Wire.Sink.Sends.{Sent, IsUnwilling, write_all_vectored_payload-Sent}
use ssh_proxy.Wire.Batch.{
  FrameWriteBatchStats, write_frame_batch, write_to_with_scratch, write_payload, default_stats,
  record_frame,
}
use ssh_proxy.Wire.Batch.Counts.{EncodesAll, write_frame_batch_ok, data_frames, data_bytes}
use ssh_proxy.Wire.Batch.Total.{write_frame_batch_total}
use ssh_proxy.Wire.RoundTrip.{read_frames-write_frame_batch}

-- "done", 443 and so on, as octets.
abbrev done_text : Bytes
done_text = 0x64 ∷ 0x6f ∷ 0x6e ∷ 0x65 ∷ []

abbrev accepted : Frame
accepted = open_tcp_result 1 true []

abbrev waiting : List Frame
waiting = close 2 done_text ∷ chunk 3 (0x61 ∷ 0x62 ∷ 0x63 ∷ []) ∷ []

abbrev asking : Frame
asking = open_tcp 7 done_text 443 (some done_text)

-- A peer that takes five octets at most.
abbrev slow : Peer
slow = record { answer = λ _. accepts 5; flushes = true }

abbrev fresh : Sink
fresh = record { out = []; calls = 0 }

abbrev batch_stats : FrameWriteBatchStats
batch_stats = record {
  frames_written = 3;
  flushes = 1;
  data_frames_written = 1;
  data_bytes_written = 3;
  vectored_writes = 9;
}

abbrev batch_wire : Bytes
batch_wire =
    2 ∷ 0 ∷ 0 ∷ 0 ∷ 1 ∷ 0 ∷ 0 ∷ 0 ∷ 3 ∷ 1 ∷ 0 ∷ 0 ∷ 4 ∷ 0 ∷ 0 ∷ 0 ∷ 2 ∷ 0 ∷ 0 ∷ 0 ∷ 6 ∷ 0 ∷ 4 ∷ 0x64
    ∷ 0x6f ∷ 0x6e ∷ 0x65 ∷ 3 ∷ 0 ∷ 0 ∷ 0 ∷ 3 ∷ 0 ∷ 0 ∷ 0 ∷ 3 ∷ 0x61 ∷ 0x62 ∷ 0x63 ∷ []

batch_run :
    ◌≡◌ {A = Sink × Result FrameError (FrameWriteBatchStats × List Frame)}
      (write_frame_batch slow accepted waiting fresh)
      (record { out = batch_wire; calls = 9 }, ok (batch_stats, []))
unfolding write_frame_batch write_to_with_scratch write_payload default_stats record_frame
    encode_into write_string write_all_vectored_payload write_loop write_vectored offered
batch_run = refl

slow-not-IsUnwilling : ¬ IsUnwilling slow
slow-not-IsUnwilling (k, inl e) = cc
slow-not-IsUnwilling (k, inr e) = ground arith

batch-IsTyped : All IsTyped (accepted ∷ waiting)
unfolding is_utf8
batch-IsTyped = (
  (omega arith, (tt, refl)),
  ((omega arith, (omega arith, refl)), ((omega arith, omega arith), tt)),
)

read_frames-write_frame_batch_example :
    read_frames 33 (λ n k. 0) (record { ahead = batch_wire; broken = false })
    ≡ ok (accepted ∷ waiting)
read_frames-write_frame_batch_example =
    read_frames-write_frame_batch slow (λ n k. 0) accepted waiting [] batch_stats 0
      (record { out = batch_wire; calls = 9 }) batch-IsTyped batch_run

write_frame_batch_ok_example :
    let sent = accepted ∷ waiting in
    ([] ≡ drop 31 waiting)
    × ((wire : Bytes) × EncodesAll sent wire × (batch_wire ≡ [] ++ wire))
    × (batch_stats.frames_written ≡ length sent)
    × (batch_stats.data_frames_written ≡ data_frames sent)
    × (batch_stats.data_bytes_written ≡ data_bytes sent)
    × (batch_stats.flushes ≡ 1)
write_frame_batch_ok_example =
    write_frame_batch_ok slow accepted waiting [] batch_stats fresh
      (record { out = batch_wire; calls = 9 }) batch_run

abbrev asking_payload : Bytes
asking_payload =
    0 ∷ 4 ∷ 0x64 ∷ 0x6f ∷ 0x6e ∷ 0x65 ∷ 1 ∷ 187 ∷ 1 ∷ 0 ∷ 4 ∷ 0x64 ∷ 0x6f ∷ 0x6e ∷ 0x65 ∷ []

asking_encoded : encode_into asking ≡ ok (1, 7, asking_payload)
unfolding encode_into write_string
asking_encoded = refl

asking-IsTyped : IsTyped asking
unfolding is_utf8
asking-IsTyped = (omega arith, (omega arith, refl), omega arith, (omega arith, refl))

write_frame_batch_total_example :
    (s' : Sink) × (a : FrameWriteBatchStats × List Frame) × (write_frame_batch slow asking [] fresh
      ≡ (s', ok a))
write_frame_batch_total_example =
    write_frame_batch_total slow slow-not-IsUnwilling asking [] fresh refl
      (1, 7, asking_payload, asking_encoded, omega arith) tt

write_all_vectored_payload-Sent_example :
    let (s', r) = write_all_vectored_payload slow (1 ∷ 2 ∷ []) (3 ∷ []) fresh in
    Sent slow (1 ∷ 2 ∷ 3 ∷ []) s' r
write_all_vectored_payload-Sent_example =
    write_all_vectored_payload-Sent slow (1 ∷ 2 ∷ []) (3 ∷ []) fresh

read_chunks-fetch_example :
    read_chunks 3 (λ k. 0) 0 3 [] (record { ahead = 7 ∷ 8 ∷ 9 ∷ 1 ∷ []; broken = true })
    ≡ fetch 3 [] (record { ahead = 7 ∷ 8 ∷ 9 ∷ 1 ∷ []; broken = true })
read_chunks-fetch_example =
    read_chunks-fetch 3 (λ k. 0) 0 3 [] (record { ahead = 7 ∷ 8 ∷ 9 ∷ 1 ∷ []; broken = true })
      (omega arith) (omega arith)

decode-encode_into_example : decode 1 7 asking_payload ≡ ok asking
decode-encode_into_example =
    decode-encode_into asking 1 7 asking_payload asking-IsTyped asking_encoded (omega arith)

decode-IsTyped_example : IsTyped asking
decode-IsTyped_example =
    decode-IsTyped 1 7 asking_payload asking (omega arith) (omega arith) decode-encode_into_example

encode_into_iff_example : ((w : ℕ × ℕ × Bytes) × (encode_into asking ≡ ok w)) ↔ HasShortTexts asking
encode_into_iff_example = encode_into_iff asking

-- `structured_frames_reject_trailing_payload` of the source's tests.
trailing_junk : decode 1 7 (0 ∷ 1 ∷ 0x61 ∷ 1 ∷ 187 ∷ 0 ∷ 0x6a ∷ 0x75 ∷ []) ≡ err (trailing_bytes 2)
unfolding decode read_string read_u16 read_u8 read_bytes is_empty ensure_empty new from_be is_utf8
trailing_junk = refl
