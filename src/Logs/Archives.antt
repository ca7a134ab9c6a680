-- ===== src/Logs/Archives.antt =====
-- What a rotation of internal/logger/manager.go leaves of the log and its archives.
use digitdojo_shield.Prelude.{
  add_key, text_leb_total, text_beq, sort_by, insert_by, head_fresh, subst, ℕ, zero, suc, ◌+◌, ◌-◌,
  ◌≤◌, ◌<◌, ◌≡◌, ◌≢◌, ◌⊎◌, inl, inr, refl, sym, ap, ◌∙◌, Bool, true, false, ◌||◌, List, [], ◌∷◌,
  Option, none, some, arith, ltb, leb, if◌then◌else◌, length, take, has, has-without, without,
  lookup, lookup-remove, lookup-put, put, remove, keys, keys-remove, keys-put, is_some, sort, Text,
  text_eq, text_ord, text_leb, text_leb_antisym, All, IsAscending, IsUnique, Bool-cases,
  add_key-IsUnique, sort-IsAscending, has-sort, All-sort_by, All-add_key, text_beq_iff,
  without-IsUnique,
}
use digitdojo_shield.Logs.Rotation.{
  Disk, LogError, RotationFaults, Settings, archived, get_or, compressed, prune, rotate,
}

without_absent : (a : Text) (xs : List Text) → has a xs ≡ false → without a xs ≡ xs
unfolding has without
without_absent a [] h = refl
without_absent a (x ∷ xs) h = ground (arith, without_absent a xs)

length-without :
    (a : Text) (xs : List Text)
    → IsUnique xs
    → has a xs ≡ true
    → suc (length (without a xs)) ≡ length xs
unfolding has without
length-without a [] u h = cc
length-without a (x ∷ xs) u h =
    ground (arith, length-without a xs u.1, without_absent a xs, u.0, text_beq_iff a x)

All-without :
    (a : Text) (ns ks : List Text)
    → has a ns ≡ false
    → All (λ n. has n ks ≡ true) ns
    → All (λ n. has n (without a ks) ≡ true) ns
unfolding has
All-without a [] ks f h = tt
All-without a (x ∷ xs) ks f h =
    ground (arith, All-without a xs ks, has-without a x ks, text_beq_iff a x, text_beq_iff x a)

module _ (retention : ℕ) (fails : Text → Bool) where
  -- The names that the loop removes: as many of the first ones as there are too many.
  abbrev oldest : List Text → List Text
  oldest ns = take (length ns - retention) ns

  oldest-cons :
      (n : Text) (ns : List Text)
      → ltb retention (suc (length ns)) ≡ true
      → oldest (n ∷ ns) ≡ n ∷ oldest ns
  oldest-cons n ns l =
      let p : suc (length ns) - retention ≡ suc (length ns - retention) = ground arith in rw p refl

  -- An archive outside the oldest ones is not touched, whatever fails.
  lookup-prune_other :
      (b : Text) (ns : List Text) (archives : List (Text × Text))
      → has b (oldest ns) ≡ false
      → lookup b (prune retention fails ns archives) ≡ lookup b archives
  unfolding prune has
  lookup-prune_other b [] archives h = refl
  lookup-prune_other b (n ∷ ns) archives h = elim (Bool-cases (ltb retention (suc (length ns)))) [
    | inl l ↦
        let h' : has b (n ∷ oldest ns) ≡ false = sym (ap (has b) (oldest-cons n ns l)) ∙ h in
        let rest =
          lookup-prune_other b ns (if fails n then archives else remove n archives)
            (ground arith) in
        rw l (rest ∙ ground (arith, lookup-remove n b archives))
    | inr g ↦ rw g refl
  ]

  -- Without failures the oldest are gone and the others are as they were.
  lookup-prune :
      (b : Text) (ns : List Text) (archives : List (Text × Text))
      → ((n : Text) → fails n ≡ false)
      → lookup b (prune retention fails ns archives)
        ≡ (if has b (oldest ns) then none else lookup b archives)
  unfolding prune has
  lookup-prune b [] archives h = ground arith
  lookup-prune b (n ∷ ns) archives h = elim (Bool-cases (ltb retention (suc (length ns)))) [
    | inl l ↦
        rw (l, h n, oldest-cons n ns l)
          (lookup-prune b ns (remove n archives) h ∙ ground (arith, lookup-remove n b archives))
    | inr g ↦ let p : suc (length ns) - retention ≡ 0 = ground arith in rw (g, p) refl
  ]

  -- With names that are in use, once each, as many archives remain as are retained.
  length-prune :
      (ns : List Text) (archives : List (Text × Text))
      → ((n : Text) → fails n ≡ false)
      → IsUnique ns
      → All (λ n. has n (keys archives) ≡ true) ns
      → IsUnique (keys archives)
      → length (keys archives) ≡ length ns
      → length (keys (prune retention fails ns archives)) ≤ retention
  unfolding prune has
  length-prune [] archives h u m k e = omega (arith, e)
  length-prune (n ∷ ns) archives h u m k e = elim (Bool-cases (ltb retention (suc (length ns)))) [
    | inl l ↦
        let left = keys-remove n archives in
        let fewer : length (keys (remove n archives)) ≡ length ns =
          ap length left ∙ ground (arith, length-without n (keys archives) k m.0, e) in
        rw (l, h n)
          (length-prune ns (remove n archives) h u.1
            (subst (λ ks. All (λ j. has j ks ≡ true) ns) (sym left)
              (All-without n ns (keys archives) u.0 m.1))
            (subst IsUnique (sym left) (without-IsUnique n (keys archives) k)) fewer)
    | inr g ↦ rw g (ground arith)
  ]

spared :
    (k : ℕ) (b : Text) (ns : List Text)
    → IsAscending text_ord ns
    → All (λ n. text_leb n b ≡ true) ns
    → k < length ns
    → has b (take k ns) ≡ false
unfolding has
spared zero b ns a h l = refl
spared (suc k) b [] a h l = refl
spared (suc k) b (x ∷ []) a h l = ground arith
spared (suc k) b (x ∷ y ∷ ns) a h l = ground (
  arith,
  spared k b (y ∷ ns) a.1 h.1,
  text_leb_antisym x y a.0.0.0,
  text_beq_iff b x,
  text_beq_iff x y,
)

spared_oldest :
    (r : ℕ) (b : Text) (ns : List Text)
    → IsAscending text_ord ns
    → All (λ n. text_leb n b ≡ true) ns
    → 1 ≤ r
    → has b (take (length ns - r) ns) ≡ false
unfolding has
spared_oldest r b [] a h l = let p : 0 - r ≡ 0 = omega arith in rw p refl
spared_oldest r b (x ∷ ns) a h l = spared (suc (length ns) - r) b (x ∷ ns) a h (omega arith)

length-sort : (xs : List Text) → length (sort text_ord xs) ≡ length xs
unfolding sort_by
length-sort [] = refl
length-sort (x ∷ xs) = length-insert x (sort text_ord xs) ∙ ap suc (length-sort xs)
  where
    length-insert : (x : Text) (xs : List Text) → length (insert_by text_leb x xs) ≡ suc (length xs)
    length-insert x [] = refl
    length-insert x (y ∷ ys) = ground (arith, length-insert x ys)

IsAscending-IsUnique : (xs : List Text) → IsAscending text_ord xs → IsUnique xs
IsAscending-IsUnique [] h = tt
IsAscending-IsUnique (x ∷ xs) h = (head_fresh text_ord x xs h.0, IsAscending-IsUnique xs h.1)

All-within :
    (xs ks : List Text)
    → ((b : Text) → has b xs ≡ true → has b ks ≡ true)
    → All (λ n. has n ks ≡ true) xs
unfolding has
All-within [] ks h = tt
All-within (x ∷ xs) ks h =
    (ground (arith, h x, text_beq_iff x x), All-within xs ks (λ b m. h b (ground arith)))

module _ (s : Settings) (f : RotationFaults) (now next : ℕ) (content : Text)
    (archives : List (Text × Text)) where
  abbrev log_of : Disk
  log_of = record { file = some content; archives = archives }

  abbrev grown : List (Text × Text)
  grown = put (s.archive_name now) (archived s f content) archives

  grown-IsUnique : IsUnique (keys archives) → IsUnique (keys grown)
  grown-IsUnique u =
      subst IsUnique (sym (keys-put _ _ archives)) (add_key-IsUnique _ (keys archives) u)

  abbrev fits : Bool
  fits = leb (length content + next) s.max_size

  abbrev IsKept : Bool → Option LogError × Disk → Type 0
  IsKept fit r =
      (r.1.file ≡ some content)
      × ((b : Text) → b ≢ s.archive_name now → lookup b r.1.archives ≡ lookup b archives)
      × (r.0 ≡ none → fit ≡ true)

  abbrev IsRotated : Bool → Option LogError × Disk → Type 0
  IsRotated fit r =
      (fit ≡ false)
      × (r ≡ (
        none,
        record {
          file = some [];
          archives = prune s.retention f.remove (sort text_ord (keys grown)) grown;
        },
      ))

  put_kept :
      (v : Text) (b : Text)
      → b ≢ s.archive_name now
      → lookup b (put (s.archive_name now) v archives) ≡ lookup b archives
  put_kept v b d =
      ground (
        arith,
        d,
        lookup-put (s.archive_name now) b v archives,
        text_beq_iff b (s.archive_name now),
      )

  compressed_cases :
      (copy zip : Option Text)
      → IsKept false (compressed s f (s.archive_name now) content log_of copy zip)
        ⊎ IsRotated false (compressed s f (s.archive_name now) content log_of copy zip)
  compressed_cases (some partial) zip = inl (refl, put_kept partial, λ e. cc)
  compressed_cases none (some partial) = inl (refl, put_kept partial, λ e. cc)
  compressed_cases none none = elim (Bool-cases f.truncate) [
    | inl t ↦ inl (rw t (refl, put_kept (archived s f content), λ e. cc))
    | inr t ↦ inr (rw t (refl, refl))
  ]

  -- A rotation leaves the log as it was, or empties it with no error.
  rotate_cases :
      IsKept fits (rotate s f now next log_of) ⊎ IsRotated fits (rotate s f now next log_of)
  unfolding rotate
  rotate_cases = elim (Bool-cases f.stat) [
    | inl a ↦ inl (rw a (refl, λ b d. refl, λ e. cc))
    | inr a ↦ elim (Bool-cases (leb (length content + next) s.max_size)) [
      | inl l ↦ inl (rw (a, l) (refl, λ b d. refl, λ e. refl))
      | inr l ↦ elim (Bool-cases f.open_source) [
        | inl o ↦ inl (rw (a, l, o) (refl, λ b d. refl, λ e. cc))
        | inr o ↦ elim (Bool-cases (f.archive || is_some (lookup (s.archive_name now) archives))) [
          | inl x ↦ inl (rw (a, l, o, x) (refl, λ b d. refl, λ e. cc))
          | inr x ↦ rw (a, l, o, x) (compressed_cases f.copy f.zip)
        ]
      ]
    ]
  ]

  -- Take a manager that retains at least one archive, archives of distinct names, none after the
  -- name of a new one. A rotation, whatever fails but the close of the new archive, leaves the log as
  -- it was, or leaves it empty with no error and its content compressed in the new archive.
  pub rotate-lossless :
      f.close ≡ none
      → 1 ≤ s.retention
      → IsUnique (keys archives)
      → All (λ n. text_leb n (s.archive_name now) ≡ true) (keys archives)
      → let r = rotate s f now next (record { file = some content; archives = archives }) in
        (r.1.file ≡ some content)
        ⊎ ((r.0 ≡ none)
            × (r.1.file ≡ some [])
            × (lookup (s.archive_name now) r.1.archives ≡ some (s.gzip content)))
  rotate-lossless closed pos u below = elim rotate_cases [
    | inl kept ↦ inl kept.0
    | inr rotated ↦ inr (
        rw rotated.1 (
          refl,
          refl,
          lookup-prune_other s.retention f.remove (s.archive_name now) (sort text_ord (keys grown))
                grown (newest_spared pos u below)
              ∙ ground (
                arith,
                lookup-put (s.archive_name now) (s.archive_name now) (archived s f content)
                    archives,
                text_beq_iff (s.archive_name now) (s.archive_name now),
              )
              ∙ ap (λ c. some (get_or (s.gzip content) c)) closed,
        ))
  ]
    where
      newest_spared :
          1 ≤ s.retention
          → IsUnique (keys archives)
          → All (λ n. text_leb n (s.archive_name now) ≡ true) (keys archives)
          → has (s.archive_name now) (oldest s.retention f.remove (sort text_ord (keys grown)))
            ≡ false
      newest_spared pos u below =
          let below' =
            subst (All (λ n. text_leb n (s.archive_name now) ≡ true))
              (sym (keys-put (s.archive_name now) (archived s f content) archives))
              (All-add_key (λ n. text_leb n (s.archive_name now) ≡ true) (s.archive_name now)
                (keys archives)
                (ground (arith, text_leb_total (s.archive_name now) (s.archive_name now))) below) in
          spared_oldest s.retention (s.archive_name now) (sort text_ord (keys grown))
            (sort-IsAscending text_ord (keys grown) (grown-IsUnique u))
            (All-sort_by text_leb (λ n. text_leb n (s.archive_name now) ≡ true) (keys grown) below')
            pos

  -- Where the archives have distinct names and can be removed, a rotation that changes the log
  -- leaves at most the retained number of archives: the first names in order are gone, the new one
  -- has the log's content, or what its close left of it, and the others are as they were.
  pub rotate-retention :
      ((n : Text) → f.remove n ≡ false)
      → IsUnique (keys archives)
      → let r = rotate s f now next (record { file = some content; archives = archives }) in
        (r.1.file ≢ some content)
        → (length (keys r.1.archives) ≤ s.retention)
          × ((b : Text)
              → lookup b r.1.archives ≡ (
                  let names = sort text_ord (add_key (s.archive_name now) (keys archives)) in
                  if has b (take (length names - s.retention) names)
                  then none
                  else if text_beq b (s.archive_name now)
                  then some (archived s f content)
                  else lookup b archives))
  rotate-retention no_faults u changed = elim rotate_cases [
    | inl kept ↦ elim (changed kept.0) [ ]
    | inr rotated ↦ rw rotated.1 (
      length-prune s.retention f.remove (sort text_ord (keys grown)) grown no_faults
          (IsAscending-IsUnique _ (sort-IsAscending text_ord (keys grown) (grown-IsUnique u)))
          (All-within _ (keys grown) (λ b m. sym (has-sort text_ord b (keys grown)) ∙ m))
          (grown-IsUnique u) (sym (length-sort (keys grown))),
      λ b.
          lookup-prune s.retention f.remove b (sort text_ord (keys grown)) grown no_faults
          ∙ rw
              (
                keys-put (s.archive_name now) (archived s f content) archives,
                lookup-put (s.archive_name now) b (archived s f content) archives,
              )
              refl,
    )
  ]

  -- After a rotation with no error the log is as it was if the bytes fit, and empty otherwise.
  pub rotate-file :
      (rotate s f now next log_of).0 ≡ none
      → (rotate s f now next log_of).1.file
        ≡ some (if leb (length content + next) s.max_size then content else [])
  rotate-file e = elim rotate_cases [
    | inl kept ↦ kept.0 ∙ rw (kept.2 e) refl
    | inr rotated ↦ rw (rotated.1, rotated.0) refl
  ]
