-- ===== src/Dedupe/Saving.antt =====
-- src/network/dedupe.rs: what is saved in a snapshot file is what is loaded from it.
use rust_quepaxa.Prelude.{
  ℕ, ◌≡◌, refl, ◌∙◌, ap, subst, false, some, arith, is_empty, inl, inr, ◌⊎◌, Bool-cases,
  Option-cases, length, ltb, ◌==◌, nat_eq, list_eq, beq_refl,
}
use rust_quepaxa.Error.{Result, ok, err, Label}
use rust_quepaxa.Dedupe.Storage.{
  Bytes, found, Files, Postcard, Encoding, SnapshotTarget, DedupeStorageEnvelope,
  dedupe_storage_version, encode_snapshot, decode_snapshot, load_snapshot, save_snapshot,
  save_encoded, replace_file, validate_snapshot_limit,
}
use rust_quepaxa.Dedupe.Replacing.{IsAtomic, replace_file-Replaced}

-- What a codec writes it reads back, and it writes something.
pub record IsFaithful {T : Type 0} (codec : Postcard T) : Type 0 where
  pub reads_back : (t : T) (b : Bytes) → codec.to_allocvec t ≡ some b → codec.from_bytes b ≡ some t
  pub writes : (t : T) (b : Bytes) → codec.to_allocvec t ≡ some b → is_empty b ≡ false

module _ {T : Type 0} (codec : Postcard T) (encoding : Encoding) where
  abbrev envelope_of : Bytes → DedupeStorageEnvelope
  envelope_of payload = record {
    version = dedupe_storage_version;
    checksum = encoding.digest payload;
    payload = payload;
  }

  -- What an encoding that succeeds is made of.
  encoded :
      (t : T) (max_bytes : ℕ) (label : Label) (bytes : Bytes)
      → encode_snapshot codec encoding t max_bytes label ≡ ok bytes
      → (payload : Bytes) × ((codec.to_allocvec t ≡ some payload)
          × (encoding.envelopes.to_allocvec (envelope_of payload) ≡ some bytes)
          × ((max_bytes == 0) ≡ false)
          × (ltb max_bytes (length bytes) ≡ false))
  unfolding encode_snapshot validate_snapshot_limit
  encoded t max_bytes label bytes h = elim (Bool-cases (max_bytes == 0)) [
    | inl z ↦ absurd (ground (arith, z, h))
    | inr z ↦ elim (Option-cases (codec.to_allocvec t)) [
      | inl n ↦ absurd (ground (arith, z, n, h))
      | inr (payload, p) ↦
          elim (Option-cases (encoding.envelopes.to_allocvec (envelope_of payload))) [
            | inl n ↦ absurd (ground (arith, z, p, n, h))
            | inr (b, q) ↦ elim (Bool-cases (ltb max_bytes (length b))) [
              | inl l ↦ absurd (ground (arith, z, p, q, l, h))
              | inr l ↦
                  let same : b ≡ bytes = ground (arith, z, p, q, l, h) in
                  (
                    payload,
                    (p, q ∙ ap some same, z, subst (λ x. ltb max_bytes (length x) ≡ false) same l),
                  )
            ]
          ]
    ]
  ]

  module _ (faithful : IsFaithful codec) (wrapped : IsFaithful encoding.envelopes) where
    -- Decoding the bytes of a snapshot gives it back, under the same size limit, where the codec
    -- of the snapshots and that of the envelopes read back what they write and write something.
    pub decode-encode :
        (t : T) (max_bytes : ℕ) (label other : Label) (bytes : Bytes)
        → encode_snapshot codec encoding t max_bytes label ≡ ok bytes
        → decode_snapshot codec encoding bytes max_bytes other ≡ ok t
    unfolding decode_snapshot validate_snapshot_limit
    decode-encode t max_bytes label other bytes h =
        let (payload, c) = encoded t max_bytes label bytes h in
        let read = wrapped.reads_back (envelope_of payload) bytes c.1 in
        let some_bytes = wrapped.writes (envelope_of payload) bytes c.1 in
        rw (c.2, some_bytes, c.3, read)
          (ground (arith, beq_refl (encoding.digest payload), faithful.reads_back t payload c.0))

    module _ {F : Type 0} (files : Files F) (staged : F → Bytes)
        (laws : IsAtomic files staged) where
      -- A restart loads what it would have loaded before the save or what was saved, and the latter
      -- where the save succeeded.
      abbrev pub Saved : F → ℕ → Label → T → F × Result (Unit {0}) → Type 0
      Saved fs max_bytes label t s =
          ((load_snapshot codec encoding files s.0 max_bytes label
              ≡ load_snapshot codec encoding files fs max_bytes label)
            ⊎ (load_snapshot codec encoding files s.0 max_bytes label ≡ ok (some t)))
          × (s.1 ≡ ok tt → load_snapshot codec encoding files s.0 max_bytes label ≡ ok (some t))

      load_same :
          (fs after : F) (max_bytes : ℕ) (label : Label)
          → files.read after ≡ files.read fs
          → load_snapshot codec encoding files after max_bytes label
            ≡ load_snapshot codec encoding files fs max_bytes label
      unfolding load_snapshot
      load_same fs after max_bytes label e = rw e refl

      load_found :
          (after : F) (max_bytes : ℕ) (label : Label) (t : T) (bytes : Bytes)
          → encode_snapshot codec encoding t max_bytes label ≡ ok bytes
          → files.read after ≡ found bytes
          → load_snapshot codec encoding files after max_bytes label ≡ ok (some t)
      unfolding load_snapshot validate_snapshot_limit
      load_found after max_bytes label t bytes h e =
          let (payload, c) = encoded t max_bytes label bytes h in
          rw (e, c.2, decode-encode t max_bytes label label bytes h) refl

      save_encoded-Saved :
          (target : SnapshotTarget) (fs : F) (t : T) (r : Result Bytes)
          → encode_snapshot codec encoding t target.max_snapshot_bytes target.label ≡ r
          → Saved fs target.max_snapshot_bytes target.label t (save_encoded files target fs r)
      save_encoded-Saved target fs t (err error) e = (inl refl, cc)
      save_encoded-Saved target fs t (ok bytes) e =
          let after = (replace_file files target fs bytes).0 in
          let r = replace_file-Replaced files staged laws target fs bytes in
          let new = load_found after target.max_snapshot_bytes target.label t bytes e in
          (
            elim r.0 [
              | inl k ↦ inl (load_same fs after target.max_snapshot_bytes target.label k)
              | inr k ↦ inr (new k)
            ],
            λ z. new (r.1 z),
          )

      -- After a save, whichever of its steps fails, what the snapshot file loads is what it
      -- loaded before or the saved snapshot, and it is the saved snapshot where the save
      -- succeeded. Only a rename may change what a reader of the file gets, and the codecs read
      -- back what they write.
      pub save_snapshot-Saved :
          (target : SnapshotTarget) (fs : F) (t : T)
          → Saved fs target.max_snapshot_bytes target.label t
              (save_snapshot files codec encoding target fs t)
      unfolding save_snapshot
      save_snapshot-Saved target fs t =
          save_encoded-Saved target fs t
            (encode_snapshot codec encoding t target.max_snapshot_bytes target.label) refl
