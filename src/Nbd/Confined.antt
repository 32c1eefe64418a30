-- ===== src/Nbd/Confined.antt =====
-- What the requests of internal/nbd/transmission.go change on the disk.
use go_fs.Base.{ℕ, ◌+◌, ◌≤◌, ◌≡◌, refl, sym, ◌∙◌, subst, ◌⊎◌, inl, inr, true, arith, length}
use go_fs.Base.Text.{Bytes}
use go_fs.Nbd.{cmd_write, Changes, Image, Request, Transmission}
use go_fs.Nbd.Handling.{Progress, handle_write, handle_trim, handle_write_zeroes, handle}
use go_fs.Nbd.Errors.{err_no_space-Error, err_invalid-Error}
use go_fs.Nbd.Rules.{
  Rules, guarded-rule, write_end-rule, trim_end-rule, zero_request-rule, Reports, handle-rule,
}

Changes-trans :
    (off n : ℕ) (a b c : Bytes) → Changes off n a b → Changes off n b c → Changes off n a c
Changes-trans off n a b c (l, h, d) (l', h', d') = (l' ∙ l, h' ∙ h, d' ∙ d)

module _ (img : Image) (t : Transmission) (req : Request) where
  open img use {
    State, content, write_at, sync, punch_hole, zero_range, sync_keeps, write_within, punch_within,
    zero_within,
  }

  -- The disk is as before, or it is writable, the request lies within it, and only there it changed.
  abbrev pub Confined : Bytes → Bytes → Type 0
  Confined before after =
      (after ≡ before)
      ⊎ ((t.writable ≡ true)
          × (req.offset + req.len ≤ t.size)
          × Changes req.offset req.len before after)

  abbrev Kept : Bytes → Progress img → Type 0
  Kept c s = Confined c (content s.image)

  rules : (c : Bytes) → Rules img t req (Kept c) (Kept c) (Kept c)
  rules c = record {
    weaken = λ s h. h;
    refuse = λ code message s e h. h;
    succeed = λ s h. h;
    synced = λ s h. subst (Confined c) (sym (sync_keeps s.image)) h;
    counted = λ s n h. h;
  }

  reports : (c : Bytes) → Reports img t req (Kept c) (Kept c) (Kept c) (rules c)
  reports c = record { report = λ reply s e h. h; read_counted = λ s n h. h }

  module _ (s : Progress img) (fits : length (content s.image) ≡ t.size) where
    write-Kept : length req.payload ≡ req.len → Kept (content s.image) (handle_write img t req s)
    unfolding handle_write
    write-Kept l =
        guarded-rule img t req _ _ _ (rules (content s.image)) _ _ s _ err_no_space-Error (inl refl)
          (λ w f.
            let h : Kept (content s.image)
                (record s { image = (write_at s.image req.payload req.offset).0 }) =
              inr (
                w,
                f,
                subst
                    (λ n.
                      Changes req.offset n (content s.image)
                        (content (write_at s.image req.payload req.offset).0))
                    l (write_within s.image req.payload req.offset (omega (arith, fits, l, f))),
              ) in
            write_end-rule img t req _ _ _ (rules (content s.image)) _ _ h (λ q. h))

    trim-Kept : Kept (content s.image) (handle_trim img t req s)
    unfolding handle_trim
    trim-Kept =
        guarded-rule img t req _ _ _ (rules (content s.image)) _ _ s _ err_invalid-Error (inl refl)
          (λ w f.
            trim_end-rule img t req _ _ _ (rules (content s.image))
              (record s { image = (punch_hole s.image req.offset req.len).0 }) _
              (inr (w, f, punch_within s.image req.offset req.len (omega (arith, fits, f)))))

    write_zeroes-Kept : Kept (content s.image) (handle_write_zeroes img t req s)
    unfolding handle_write_zeroes
    write_zeroes-Kept =
        guarded-rule img t req _ _ _ (rules (content s.image)) _ _ s _ err_no_space-Error (inl refl)
          (λ w f.
            let room : req.offset + req.len ≤ length (content s.image) = omega (arith, fits, f) in
            let p = punch_within s.image req.offset req.len room in
            let hole : Kept (content s.image)
                (record s { image = (punch_hole s.image req.offset req.len).0 }) =
              inr (w, f, p) in
            let z : Kept (content s.image)
                (record s { image = (zero_range s.image req.offset req.len).0 }) =
              inr (w, f, zero_within s.image req.offset req.len room) in
            let both : Kept (content s.image) (record s {
              image = (zero_range (punch_hole s.image req.offset req.len).0 req.offset req.len).0;
            }) =
              inr (
                w,
                f,
                Changes-trans req.offset req.len _ _ _ p
                    (zero_within _ req.offset req.len (omega (arith, p.0, room))),
              ) in
            zero_request-rule img t req _ _ _ (rules (content s.image)) s (inl refl) hole
              (λ q. hole) (z, λ q. z) (both, λ q. both))

  -- On an export of the size of the image, and for a write whose payload has the length it names: the
  -- disk is as it was, or the export is writable, the request lies within the disk, and every byte
  -- outside of its range is as it was. That holds however the image answers.
  pub handle-Confined :
      (s : Progress img)
      → length (content s.image) ≡ t.size
      → (req.kind ≡ cmd_write → length req.payload ≡ req.len)
      → Confined (content s.image) (content (handle img t req s).image)
  handle-Confined s fits full =
      handle-rule img t req _ _ _ (rules (content s.image)) (reports (content s.image)) s (inl refl)
        (λ k. write-Kept s fits (full k)) (trim-Kept s fits) (write_zeroes-Kept s fits)
