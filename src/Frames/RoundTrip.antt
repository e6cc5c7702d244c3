-- ===== src/Frames/RoundTrip.antt =====
-- crates/gateway-core/src/eventstream.rs: what `decode_frame` makes of the bytes of `encode_frame`.
use mathlib.Core.List.{append_assoc}
use smallgateway.Prelude.{
  ℕ, zero, suc, ◌+◌, ◌-◌, ◌%◌, ◌≤◌, ◌<◌, ◌≡◌, refl, ap, sym, ◌∙◌, String, List, [], ◌∷◌, ◌++◌, All,
  arith, length, length-append, ok, ◌>>=◌,
}
use smallgateway.Prelude.Order.{text_ord}
use smallgateway.Prelude.BTree.{BTreeMap, insert, insert_all}
use smallgateway.Frames.{
  take, drop, slice, be16, be32, from_be, decode_headers, decode_frame, encode_headers,
  encode_frame,
}
use smallgateway.Frames.Bytes.{
  take-append, drop_all, take_of, drop_of, slice_of, from_be-be16, from_be-be32,
}

module _ (hash : List ℕ → ℕ) (from_utf8_lossy : List ℕ → String) (as_bytes : String → List ℕ) where
  -- the lengths fit into the one byte and the two bytes that the format has for them, and the bytes
  -- of both texts are read as these texts
  abbrev pub Fits : String × String → Type 0
  Fits h =
      ((length (as_bytes (h.0)) < 256) × (length (as_bytes (h.1)) < 65536))
      × ((from_utf8_lossy (as_bytes (h.0)) ≡ h.0) × (from_utf8_lossy (as_bytes (h.1)) ≡ h.1))

  -- one round of the loop, on the bytes of one header
  decode_headers-one :
      (fuel : ℕ) (name value more : List ℕ) (headers : BTreeMap String String)
      → length name < 256
      → length value < 65536
      → decode_headers hash from_utf8_lossy as_bytes
          (suc fuel)
          (length name % 256 ∷ (name ++ (7 ∷ (be16 (length value) ++ (value ++ more)))))
          headers
        ≡ decode_headers hash from_utf8_lossy as_bytes fuel more
            (insert (from_utf8_lossy name) (from_utf8_lossy value) headers)
  unfolding decode_headers
  decode_headers-one fuel name value more headers h k =
      let rest = 7 ∷ (be16 (length value) ++ (value ++ more)) in
      rw
        (
          small h,
          drop_all name rest,
          take-append name rest,
          from_be-be16 (length value) k,
          drop_all value more,
          take-append value more,
        )
        (ground (arith, length-append name rest, length-append value more))
    where
      small : length name < 256 → length name % 256 ≡ length name
      small h = omega arith

  decode-encode_headers :
      (fuel : ℕ) (hs headers : BTreeMap String String)
      → length hs ≤ fuel
      → All Fits hs
      → decode_headers hash from_utf8_lossy as_bytes fuel
          (encode_headers hash from_utf8_lossy as_bytes hs)
          headers
        ≡ ok (insert_all headers hs)
  unfolding encode_headers insert_all
  decode-encode_headers zero [] headers enough fits = unfold decode_headers in refl
  decode-encode_headers (suc fuel) [] headers enough fits = unfold decode_headers in refl
  decode-encode_headers zero (h ∷ hs) headers enough fits = ground arith
  decode-encode_headers (suc fuel) ((name, value) ∷ hs) headers enough fits =
      decode_headers-one fuel (as_bytes name) (as_bytes value)
        (encode_headers hash from_utf8_lossy as_bytes hs) headers fits.0.0.0 fits.0.0.1
      ∙ rw (fits.0.1.0, fits.0.1.1)
          (decode-encode_headers fuel hs (insert name value headers) (ground (arith, enough))
            fits.1)

  -- a frame by its parts, the lengths of the parts as they have to be
  module _ (n4 l4 pc hb payload mc : List ℕ) (n : length n4 ≡ 4) (l : length l4 ≡ 4)
      (p : length pc ≡ 4) (m : length mc ≡ 4) where
    abbrev frame : List ℕ
    frame = n4 ++ (l4 ++ (pc ++ (hb ++ (payload ++ mc))))

    abbrev off : ℕ
    off = 12 + length hb + length payload

    sizes : length frame ≡ off + 4
    sizes = ground (
      arith,
      n,
      l,
      p,
      m,
      length-append n4 (l4 ++ (pc ++ (hb ++ (payload ++ mc)))),
      length-append l4 (pc ++ (hb ++ (payload ++ mc))),
      length-append pc (hb ++ (payload ++ mc)),
      length-append hb (payload ++ mc),
      length-append payload mc,
    )

    off_eq : length frame - 4 ≡ off
    off_eq = ground (arith, sizes)

    size_bytes : slice 4 8 frame ≡ l4
    size_bytes = slice_of 4 8 n4 l4 (pc ++ (hb ++ (payload ++ mc))) frame refl n (ground (arith, l))

    head2 : frame ≡ (n4 ++ l4) ++ (pc ++ (hb ++ (payload ++ mc)))
    head2 = sym (append_assoc n4 l4 (pc ++ (hb ++ (payload ++ mc))))

    size2 : length (n4 ++ l4) ≡ 8
    size2 = length-append n4 l4 ∙ ground (arith, n, l)

    crc_bytes : slice 8 12 frame ≡ pc
    crc_bytes =
        slice_of 8 12 (n4 ++ l4) pc (hb ++ (payload ++ mc)) frame head2 size2 (ground (arith, p))

    prelude_bytes : take 8 frame ≡ n4 ++ l4
    prelude_bytes = take_of 8 (n4 ++ l4) (pc ++ (hb ++ (payload ++ mc))) frame head2 size2

    head3 : frame ≡ ((n4 ++ l4) ++ pc) ++ (hb ++ (payload ++ mc))
    head3 = head2 ∙ sym (append_assoc (n4 ++ l4) pc (hb ++ (payload ++ mc)))

    size3 : length ((n4 ++ l4) ++ pc) ≡ 12
    size3 = length-append (n4 ++ l4) pc ∙ ground (arith, size2, p)

    header_bytes : slice 12 (12 + length hb) frame ≡ hb
    header_bytes =
        slice_of 12 (12 + length hb) ((n4 ++ l4) ++ pc) hb (payload ++ mc) frame head3 size3 refl

    head4 : frame ≡ (((n4 ++ l4) ++ pc) ++ hb) ++ (payload ++ mc)
    head4 = head3 ∙ sym (append_assoc ((n4 ++ l4) ++ pc) hb (payload ++ mc))

    size4 : length (((n4 ++ l4) ++ pc) ++ hb) ≡ 12 + length hb
    size4 = length-append ((n4 ++ l4) ++ pc) hb ∙ ground (arith, size3)

    payload_bytes : slice (12 + length hb) off frame ≡ payload
    payload_bytes =
        slice_of (12 + length hb) off (((n4 ++ l4) ++ pc) ++ hb) payload mc frame head4 size4
          (ground arith)

    abbrev body : List ℕ
    body = n4 ++ (l4 ++ (pc ++ (hb ++ payload)))

    head5 : frame ≡ body ++ mc
    head5 = simp append_assoc refl

    size5 : length body ≡ off
    size5 = ground (arith, sizes, length-append body mc, head5, m)

    body_bytes : take off frame ≡ body
    body_bytes = take_of off body mc frame head5 size5

    message_crc_bytes : drop off frame ≡ mc
    message_crc_bytes = drop_of off body mc frame head5 size5

    decode_frame-parts :
        from_be 0 l4 ≡ length hb
        → hash (n4 ++ l4) ≡ from_be 0 pc
        → hash body ≡ from_be 0 mc
        → decode_frame hash from_utf8_lossy as_bytes frame ≡ (
            decode_headers hash from_utf8_lossy as_bytes (length hb) hb [] >>= λ headers.
            ok (record { headers = headers; payload = payload }))
    unfolding decode_frame
    decode_frame-parts size pre whole =
        rw
          (
            size_bytes, size, crc_bytes, prelude_bytes, off_eq, body_bytes, message_crc_bytes,
            header_bytes, payload_bytes, pre, whole,
          )
          (ground arith)

  encode_headers-length :
      (hs : List (String × String))
      → length hs ≤ length (encode_headers hash from_utf8_lossy as_bytes hs)
  unfolding encode_headers
  encode_headers-length [] = ground arith
  encode_headers-length ((name, value) ∷ hs) =
      let more = encode_headers hash from_utf8_lossy as_bytes hs in
      let rest = be16 (length (as_bytes value)) ++ (as_bytes value ++ more) in
      ground (
        arith,
        encode_headers-length hs,
        length-append (as_bytes name) (7 ∷ rest),
        length-append (as_bytes value) more,
      )

  -- A frame that is encoded from headers whose names and values fit their one and two bytes of
  -- length, and that is shorter than 2^32 bytes, is decoded to the same payload and to the map of
  -- these headers, where a checksum has 32 bits and the headers' bytes are read as their texts.
  pub decode-encode_frame :
      ((bytes : List ℕ) → hash bytes < 4294967296)
      → (hs : List (String × String)) (payload : List ℕ) → All Fits hs
      → 12 + length (encode_headers hash from_utf8_lossy as_bytes hs) + length payload + 4
        < 4294967296
      → decode_frame hash from_utf8_lossy as_bytes
          (encode_frame hash from_utf8_lossy as_bytes hs payload)
        ≡ ok (record { headers = insert_all [] hs; payload = payload })
  unfolding encode_frame
  decode-encode_frame crc hs payload fits short =
      let hb = encode_headers hash from_utf8_lossy as_bytes hs in
      let n4 = be32 (12 + length hb + length payload + 4) in
      let l4 = be32 (length hb) in
      let pc = be32 (hash (n4 ++ l4)) in
      let mc = be32 (hash (n4 ++ (l4 ++ (pc ++ (hb ++ payload))))) in
      ap (λ rest. decode_frame hash from_utf8_lossy as_bytes (n4 ++ (l4 ++ (pc ++ rest))))
        (append_assoc hb payload mc)
      ∙ decode_frame-parts n4 l4 pc hb payload mc refl refl refl refl
          (from_be-be32 (length hb) (ground (arith, short)))
          (sym (from_be-be32 (hash (n4 ++ l4)) (crc (n4 ++ l4))))
          (sym (
            from_be-be32 (hash (n4 ++ (l4 ++ (pc ++ (hb ++ payload)))))
              (crc (n4 ++ (l4 ++ (pc ++ (hb ++ payload)))))))
      ∙ ap (λ r. r >>= λ headers. ok (record { headers = headers; payload = payload }))
          (decode-encode_headers (length hb) hs [] (encode_headers-length hs) fits)
