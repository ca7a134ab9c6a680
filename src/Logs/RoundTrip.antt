-- ===== src/Logs/RoundTrip.antt =====
-- What internal/logger/manager.go writes is found by its queries.

use digitdojo_shield.Prelude.{
  ℕ, ◌+◌, ◌≡◌, refl, sym, ap, ◌∙◌, Bool, true, false, List, [], ◌∷◌, ◌++◌, Option, none, some, leb,
  if◌then◌else◌, length, keep, Text, ok, All,
}
use digitdojo_shield.Logs.Scan.{LineCodec, IsLawfulLines, IsLine, file_of, file_of-snoc}
use digitdojo_shield.Logs.Rotation.{LogError, encode_failed, Disk, rotate}
use digitdojo_shield.Logs.Archives.{rotate-file}
use digitdojo_shield.Logs.Manager.{
  Entry, Manager, WriteFaults, prepared, write, append_to, append_entry, write_rotated,
}
use digitdojo_shield.Logs.Query.{Lib, Query, IsLawfulSort, IsPage, matches, query, query-IsPage}

module _ {H : Type 0} (c : LineCodec Entry) (f : WriteFaults) (e : Entry) (m : Manager H) where
  write_rotated_lem :
      (line content : Text) (r : Option LogError × Disk)
      → (write_rotated c f e line m r).0 ≡ none
      → (r.0 ≡ none → r.1.file ≡ some content)
      → (write_rotated c f e line m r).1.disk.file ≡ some (content ++ line)
  write_rotated_lem line content (some error, d) h kept = cc
  write_rotated_lem line content (none, d) h kept = appended f.open_file f.write h
    where
      appended :
          (o : Bool) (w : Option ℕ)
          → (append_entry c (record f { open_file = o; write = w }) e line m d).0 ≡ none
          → (append_entry c (record f { open_file = o; write = w }) e line m d).1.disk.file
            ≡ some (content ++ line)
      appended true w h = cc
      appended false (some n) h = cc
      appended false none h = ap (λ file. some (append_to none line file)) (kept refl)

module _ {H : Type 0} (c : LineCodec Entry) (f : WriteFaults) (clock : ℕ) (e : Entry)
    (m : Manager H) where
  write_file :
      (content : Text)
      → m.disk.file ≡ some content
      → (write c f clock e m).0 ≡ none
      → (write c f clock e m).1.disk.file
        ≡ some (
            (if leb
                (length content + (length (c.encode (prepared clock e)) + 1))
                m.settings.max_size
              then content
              else [])
            ++ (c.encode (prepared clock e) ++ 10 ∷ []))
  unfolding write
  write_file content file h =
      let start : Disk = record { file = some content; archives = m.disk.archives } in
      let size = length (c.encode (prepared clock e)) + 1 in
      let line = c.encode (prepared clock e) ++ 10 ∷ [] in
      let rotated = rotate m.settings f.rotation clock size start in
      let same : write c f clock e m ≡ write_rotated c f (prepared clock e) line m rotated =
        marshalled f.marshal
          (write_rotated c f (prepared clock e) line m
            (rotate m.settings f.rotation clock size m.disk))
          h
        ∙ ap
            (λ (x : Option Text). write_rotated c f (prepared clock e) line m (
              rotate m.settings f.rotation clock size
                (record { file = x; archives = m.disk.archives })))
            file in
      ap (λ (r : Option LogError × Manager H × List (H × Entry)). r.1.disk.file) same
      ∙ write_rotated_lem c f (prepared clock e) m line _ rotated
          (sym (ap (λ (r : Option LogError × Manager H × List (H × Entry)). r.0) same) ∙ h)
          (rotate-file m.settings f.rotation clock size content m.disk.archives)
    where
      marshalled :
          (b : Bool) (r : Option LogError × Manager H × List (H × Entry))
          → (if b then (some encode_failed, m, []) else r).0 ≡ none
          → (if b then (some encode_failed, m, []) else r) ≡ r
      marshalled true r h = cc
      marshalled false r h = refl

module _ {A : Type 0} (c : LineCodec A) (es : List A) (a : A) where
  kept_file :
      (b : Bool)
      → some ((if b then file_of c es else []) ++ (c.encode a ++ 10 ∷ []))
        ≡ some (file_of c ((if b then es else []) ++ a ∷ []))
  kept_file true = ap (λ (t : Text). some t) (sym (file_of-snoc c es a))
  kept_file false = refl

  All-kept :
      (P : A → Type 0) (b : Bool) → All P (es ++ a ∷ []) → All P ((if b then es else []) ++ a ∷ [])
  All-kept P true h = h
  All-kept P false h = last es h
    where
      last : (xs : List A) → All P (xs ++ a ∷ []) → All P (a ∷ [])
      last [] h = h
      last (x ∷ xs) h = last xs h.1

-- The file of the log has a line for each entry, and each of these and the new one has a line below
-- a megabyte that is decoded to it again; sort.Slice sorts. If Write returns no error, Query then
-- finds the page of the entries with the new one at their end, or of the new one alone where the
-- file and the line exceed the maximal size.
pub write-query :
    {H : Type 0} (lib : Lib) (f : WriteFaults) (clock : ℕ) (e : Entry) (m : Manager H)
    (es : List Entry) (q : Query)
    → IsLawfulLines lib.codec
    → IsLawfulSort lib
    → All (IsLine lib.codec) (es ++ prepared clock e ∷ [])
    → m.disk.file ≡ some (file_of lib.codec es)
    → (write lib.codec f clock e m).0 ≡ none
    → let kept =
        if leb
          (length (file_of lib.codec es) + (length (lib.codec.encode (prepared clock e)) + 1))
          m.settings.max_size
        then es
        else [] in
      (r : List Entry × ℕ) × (query lib false q (write lib.codec f clock e m).1.disk.file ≡ ok r)
      × IsPage q (keep (matches lib q) (kept ++ prepared clock e ∷ [])) r
write-query lib f clock e m es q law sorts lines file h =
    let c = lib.codec in
    let fits =
      leb (length (file_of c es) + (length (c.encode (prepared clock e)) + 1))
        m.settings.max_size in
    let found =
      query-IsPage lib q _ law sorts (All-kept c es (prepared clock e) (IsLine c) fits lines) in
    (
      found.0,
      ap (query lib false q) (
            write_file c f clock e m (file_of c es) file h ∙ kept_file c es (prepared clock e) fits)
          ∙ found.1,
      found.2,
    )
