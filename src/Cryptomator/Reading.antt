-- ===== src/Cryptomator/Reading.antt =====
-- What the Reader of internal/cryptomator/content.go reads of a file that the Writer wrote.
use mathlib.Core.Option.{some-injective}
use go_fs.Base.{
  ℕ, suc, ◌+◌, ◌-◌, ◌*◌, ◌/◌, ◌≤◌, ◌<◌, min, ◌≡◌, refl, sym, ap, ◌∙◌, subst, ◌⊎◌, inl, inr, true,
  false, Option, some, List, [], ◌∷◌, ◌++◌, append_assoc, arith, leb, ◌==◌, ==_iff, Bool-cases,
  Option-cases, length, get_elem?, take, drop, length-append, length-take, length-drop,
  take-length-append, drop-length-append,
}
use go_fs.Base.Text.{Bytes}
use go_fs.Tftp.Streams.{read, end}
use go_fs.Cryptomator.{
  nonce_size, header_size, chunk_overhead, ciphertext_size, Header, aad, sealed_chunk, VaultReader,
  read_at, plain_chunk, loaded, load, chunk_at, vault_read,
}
use go_fs.Cryptomator.Chunks.{joined, joined-append, sealed_all, sealed_all-append, Shape}
use go_fs.Cryptomator.Locating.{
  length-sealed_all, length-sealed_chunk, ciphertext_size-Shape, locate,
}
use go_fs.Cryptomator.Sizes.{quotient}
use go_fs.Cryptomator.Offsets.{drop_behind, drop-joined, split_read, some_taken}

abbrev some_pair : ℕ → Bytes → Option (ℕ × Bytes)
some_pair i plain = some (i, plain)

pub read_at-front :
    (whole : Bytes) (at : ℕ) (raw rest : Bytes)
    → drop at whole ≡ raw ++ rest
    → read_at whole at (length raw) ≡ some raw
unfolding read_at
read_at-front whole at raw rest e =
    let fits : leb (length raw) (length (drop at whole)) ≡ true =
      ground (arith, ap length e, length-append raw rest) in
    rw (fits) (ap some (ap (take (length raw)) e ∙ take-length-append raw rest))

module _ (chunk : ℕ) (h : Header) (drawn : ℕ → Bytes) (head : Bytes) (cs : List Bytes)
    (pos : 0 < chunk) (head_size : length head ≡ header_size)
    (drawn_size : (j : ℕ) → length (drawn j) ≡ nonce_size) (shape : Shape chunk cs) where
  abbrev pub file : Bytes
  file = head ++ sealed_all h drawn 0 cs

  pub length-file : length file ≡ ciphertext_size chunk (length (joined cs))
  length-file = omega (
    arith,
    length-append head (sealed_all h drawn 0 cs),
    length-sealed_all h drawn 0 cs drawn_size,
    ciphertext_size-Shape chunk cs pos shape,
    head_size,
  )

  drop-file :
      (xs : List Bytes) (c : Bytes) (ys : List Bytes)
      → cs ≡ xs ++ (c ∷ ys)
      → length (joined xs) ≡ length xs * chunk
      → drop (header_size + length xs * (chunk + chunk_overhead)) file
        ≡ sealed_chunk h drawn (length xs) c ++ sealed_all h drawn (suc (length xs)) ys
  unfolding sealed_all
  drop-file xs c ys e m =
      let front = head ++ sealed_all h drawn 0 xs in
      let zeroth : 0 + length xs ≡ length xs = omega arith in
      let place : header_size + length xs * (chunk + chunk_overhead) ≡ length front = grind (
        arith,
        length-append head (sealed_all h drawn 0 xs),
        length-sealed_all h drawn 0 xs drawn_size,
        head_size,
        m,
      ) in
      let split_file : file ≡ front ++ sealed_all h drawn (length xs) (c ∷ ys) =
        ap (λ z. head ++ sealed_all h drawn 0 z) e
        ∙ (ap (λ z. head ++ z)
              (sealed_all-append h drawn 0 xs (c ∷ ys)
                ∙ ap (λ n. sealed_all h drawn 0 xs ++ sealed_all h drawn n (c ∷ ys)) zeroth)
            ∙ sym (append_assoc head (sealed_all h drawn 0 xs) _)) in
      (λ i. drop (place i) (split_file i)) ∙ drop-length-append front _

  -- A reader of this file.
  abbrev pub Good : VaultReader → Type 0
  Good r =
      (r.file ≡ file)
      × (r.header ≡ h)
      × (r.size ≡ length (joined cs))
      × ((j : ℕ) (plain : Bytes) → r.cached ≡ some (j, plain) → get_elem? cs j ≡ some plain)

  -- The raw bytes that `load` reads are those of one chunk.
  raw_size :
      (c : Bytes) (ys : List Bytes) (i : ℕ)
      → length c ≤ chunk
      → (ys ≡ []) ⊎ (length c ≡ chunk)
      → min
          (chunk + chunk_overhead)
          (length (sealed_chunk h drawn i c ++ sealed_all h drawn (suc i) ys))
        ≡ length (sealed_chunk h drawn i c)
  unfolding sealed_all
  raw_size c ys i l t =
      let whole = length-append (sealed_chunk h drawn i c) (sealed_all h drawn (suc i) ys) in
      let one = length-sealed_chunk h drawn i c (drawn_size i) in
      elim t [
        | inl e ↦ omega (arith, whole, one, l, ap (λ z. length (sealed_all h drawn (suc i) z)) e)
        | inr e ↦ omega (arith, whole, one, l, e)
      ]

  unseal-chunk :
      (i : ℕ) (c : Bytes)
      → h.key.unseal
          (take nonce_size (sealed_chunk h drawn i c))
          (drop nonce_size (sealed_chunk h drawn i c))
          (aad h i)
        ≡ some c
  unfolding sealed_chunk
  unseal-chunk i c =
      let sealed = h.key.seal (drawn i) c (aad h i) in
      let n = sym (drawn_size i) in
      (λ j.
        h.key.unseal
          (((ap (λ m. take m (drawn i ++ sealed)) n) ∙ take-length-append (drawn i) sealed) j)
          (((ap (λ m. drop m (drawn i ++ sealed)) n) ∙ drop-length-append (drawn i) sealed) j)
          (aad h i))
      ∙ h.key.unseal_seal (drawn i) c (aad h i)

  load_raw :
      (r : VaultReader) (i : ℕ) (raw : Bytes)
      → read_at r.file (header_size + i * (chunk + chunk_overhead)) (
          min
            (chunk + chunk_overhead)
            (ciphertext_size chunk r.size - (header_size + i * (chunk + chunk_overhead))))
        ≡ some raw
      → load chunk r i
        ≡ loaded (r.header.key.unseal (take nonce_size raw) (drop nonce_size raw) (aad r.header i))
  unfolding load
  load_raw r i raw e = rw (e, load) refl

  load-located :
      (r : VaultReader) (xs : List Bytes) (c : Bytes) (ys : List Bytes)
      → Good r
      → cs ≡ xs ++ (c ∷ ys)
      → length (joined xs) ≡ length xs * chunk
      → length c ≤ chunk
      → (ys ≡ []) ⊎ (length c ≡ chunk)
      → load chunk r (length xs) ≡ plain_chunk c
  unfolding loaded
  load-located r xs c ys (f, hd, sz, ca) e m l t =
      let i = length xs in
      let at = header_size + i * (chunk + chunk_overhead) in
      let raw = sealed_chunk h drawn i c in
      let there = drop-file xs c ys e m in
      let left =
        ap (λ z. z - at) (ap (ciphertext_size chunk) sz ∙ sym length-file)
        ∙ (sym (length-drop at file) ∙ ap length there) in
      let n = ap (min (chunk + chunk_overhead)) left ∙ raw_size c ys i l t in
      load_raw r i raw (
        (λ j. read_at (f j) at (n j))
        ∙ read_at-front file at raw (sealed_all h drawn (suc i) ys) there)
      ∙ ap loaded (
          ap (λ z. z.key.unseal (take nonce_size raw) (drop nonce_size raw) (aad z i)) hd
          ∙ unseal-chunk i c)

  get-middle :
      (xs : List Bytes) (c : Bytes) (ys : List Bytes)
      → get_elem? (xs ++ (c ∷ ys)) (length xs) ≡ some c
  get-middle [] c ys = refl
  get-middle (x ∷ xs) c ys = get-middle xs c ys

  chunk_at-located :
      (r : VaultReader) (xs : List Bytes) (c : Bytes) (ys : List Bytes)
      → Good r
      → cs ≡ xs ++ (c ∷ ys)
      → length (joined xs) ≡ length xs * chunk
      → length c ≤ chunk
      → (ys ≡ []) ⊎ (length c ≡ chunk)
      → chunk_at chunk r (length xs) ≡ plain_chunk c
  unfolding chunk_at
  chunk_at-located r xs c ys good e m l t =
      let fresh = load-located r xs c ys good e m l t in
      elim (Option-cases r.cached) [
        | inl n ↦ rw (n, chunk_at) fresh
        | inr ((j, plain), n) ↦ elim (Bool-cases (j == length xs)) [
          | inr b ↦ rw (n, chunk_at) (rw (b) fresh)
          | inl b ↦
              let same =
                sym (good.3 j plain n)
                ∙ (ap (get_elem? cs) ((==_iff j (length xs)).0 b)
                    ∙ (ap (λ z. get_elem? z (length xs)) e ∙ get-middle xs c ys)) in
              rw (n, chunk_at) (rw (b) (ap plain_chunk (some-injective _ _ same)))
        ]
      ]

  read_loaded :
      (r : VaultReader) (n i : ℕ) (plain : Bytes)
      → leb r.size r.offset ≡ false
      → r.offset / chunk ≡ i
      → chunk_at chunk r (r.offset / chunk) ≡ plain_chunk plain
      → vault_read chunk r n ≡ (
        record r {
          offset = r.offset + length (take n (drop (r.offset - r.offset / chunk * chunk) plain));
          cached = some (r.offset / chunk, plain);
        },
        read (take n (drop (r.offset - r.offset / chunk * chunk) plain)),
      )
  unfolding vault_read
  read_loaded r n i plain b e c = rw (b, vault_read) (rw (c) refl)

  -- A read before the end of the cleartext: the bytes that stand there, up to the end of a chunk.
  pub read_inside :
      (r : VaultReader) (n : ℕ)
      → Good r
      → r.offset < length (joined cs)
      → (bs : Bytes) × (i : ℕ) × (plain : Bytes) × (vault_read chunk r n
          ≡ (record r { offset = r.offset + length bs; cached = some (i, plain) }, read bs))
        × (get_elem? cs i ≡ some plain)
        × (drop r.offset (joined cs) ≡ bs ++ drop (r.offset + length bs) (joined cs))
        × (length bs ≤ n)
        × ((n ≡ 0) ⊎ (0 < length bs))
  unfolding vault_read
  read_inside r n good l =
      let (xs, c, ys, e, m, p, q, f, t) = locate chunk cs r.offset shape l in
      let at = r.offset - length xs * chunk in
      let bs = take n (drop at c) in
      let size = length-append (joined xs) (c ++ joined ys) in
      let place : r.offset ≡ length xs * chunk + at = omega (arith, p) in
      let index =
        ap (λ z. z / chunk) place ∙ quotient (length xs) chunk at (omega (arith, p, q, f)) in
      let before_end : leb r.size r.offset ≡ false = ground (arith, l, good.2) in
      let there = chunk_at-located r xs c ys good e m f t in
      let text =
        drop-joined xs c ys at (omega (arith, p, q)) ∙ split_read n (drop at c) (joined ys) in
      let whole =
        ap (λ a. drop a (joined cs)) (place ∙ ap (λ z. z + at) (sym m))
        ∙ ap (λ z. drop (length (joined xs) + at) z) (ap joined e ∙ joined-append xs (c ∷ ys)) in
      let front = whole ∙ text in
      (
        bs,
        length xs,
        c,
        read_loaded r n (r.offset / chunk) c before_end refl (ap (chunk_at chunk r) index ∙ there)
            ∙ ap
                (λ j. (
                  record r {
                    offset = r.offset + length (take n (drop (r.offset - j * chunk) c));
                    cached = some (j, c);
                  },
                  read (take n (drop (r.offset - j * chunk) c)),
                ))
                index,
        ap (λ z. get_elem? z (length xs)) e ∙ get-middle xs c ys,
        front
            ∙ ap (λ z. bs ++ z)
                (sym (drop_behind r.offset (joined cs) bs (drop n (drop at c) ++ joined ys) front)),
        omega (arith, length-take n (drop at c)),
        some_taken n (drop at c) (omega (arith, length-drop at c, q, p)),
      )

  pub at_end :
      (r : VaultReader) (n : ℕ) → leb r.size r.offset ≡ true → vault_read chunk r n ≡ (r, end)
  unfolding vault_read
  at_end r n b = rw (b, vault_read) refl

  cached_only :
      (i : ℕ) (plain : Bytes)
      → get_elem? cs i ≡ some plain
      → (j : ℕ) (other : Bytes) → some_pair i plain ≡ some (j, other)
      → get_elem? cs j ≡ some other
  cached_only i plain g j other e =
      let p = some-injective _ _ e in
      ap (get_elem? cs) (sym (ap (λ z. z.0) p)) ∙ (g ∙ ap some (ap (λ z. z.1) p))

  -- A reader of this file, as a stream.
  abbrev pub Opened : Type 0
  Opened = (r : VaultReader) × Good r

  pub read-Good : (r : VaultReader) (n : ℕ) → Good r → Good (vault_read chunk r n).0
  unfolding vault_read
  read-Good r n good = elim (Bool-cases (leb r.size r.offset)) [
    | inl b ↦ subst Good (sym (ap (λ z. z.0) (at_end r n b))) good
    | inr b ↦
        let inside : r.offset < length (joined cs) = ground (arith, b, good.2) in
        let (bs, i, plain, e, g, text, most, least) = read_inside r n good inside in
        subst Good (sym (ap (λ z. z.0) e)) (good.0, good.1, good.2, cached_only i plain g)
  ]
