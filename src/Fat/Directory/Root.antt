-- ===== src/Fat/Directory/Root.antt =====
-- Files of the root directory, by paths without a slash.
use mikan_os.Prelude.{
  ℕ, suc, ◌≤◌, ◌<◌, ◌≡◌, ◌≢◌, refl, sym, ap, ◌∙◌, List, [], ◌∷◌, Bool, true, false, ◌&&◌, Option,
  none, some, ◌==◌, length, get_or, arith, ==_no, subst,
}
use mikan_os.Error.{Code}
use mikan_os.Fat.{end_of_clusterchain}
use mikan_os.Fat.Names.{set_file_name, next_path_element}
use mikan_os.Fat.Names.Padded.{IsPlain, joined}
use mikan_os.Fat.Names.Equal.{set_file_name-packed, set_file_name-equal}
use mikan_os.Fat.Directory.{
  NamedEntry, Tree, find_entry, find_start, found_entry, find_file, put_named, last_slash,
  create_in, create_file,
}
use mikan_os.Fat.Directory.Created.{has_free, find_created, put_here, put_there}

-- No slash.
abbrev pub IsFlat : List ℕ → Type 0
IsFlat [] = Unit
IsFlat (c ∷ cs) = (c ≢ 47) × IsFlat cs

next_path_element-IsFlat : (path : List ℕ) → IsFlat path → next_path_element path ≡ (path, none)
unfolding next_path_element
next_path_element-IsFlat [] f = refl
next_path_element-IsFlat (c ∷ cs) (h, f) =
    rw (next_path_element, next_path_element-IsFlat cs f, ==_no c 47 h) refl

last_slash-IsFlat : (path : List ℕ) → IsFlat path → last_slash path ≡ none
unfolding last_slash
last_slash-IsFlat [] f = refl
last_slash-IsFlat (c ∷ cs) (h, f) = rw (last_slash, last_slash-IsFlat cs f, ==_no c 47 h) refl

find_start-IsFlat :
    (t : Tree) (path : List ℕ) → IsFlat path → find_start t path 0 ≡ (path, t.root_cluster)
unfolding find_start
find_start-IsFlat t [] f = refl
find_start-IsFlat t (c ∷ cs) (h, f) = rw (find_start, ==_no c 47 h) refl

-- What FindFile returns for the last element of a path with no slash behind it.
abbrev shown : Option (Option (ℕ × ℕ)) → Option (Option (ℕ × ℕ) × Bool)
shown none = none
shown (some found) = some (found, false)

shown_last :
    (find : List ℕ → ℕ → Option (Option (ℕ × ℕ) × Bool)) (t : Tree) (r : Option (Option (ℕ × ℕ)))
    → (elim r as (λ x. Option (Option (ℕ × ℕ) × Bool)) [
      | none ↦ none
      | some found ↦ found_entry find t none found
    ])
      ≡ shown r
unfolding found_entry
shown_last find t none = refl
shown_last find t (some none) = refl
shown_last find t (some (some at)) = refl

-- FindFile, for a path of one element.
find_file-IsFlat :
    (toupper : ℕ → ℕ) (n fuel : ℕ) (t : Tree) (path : List ℕ)
    → IsFlat path
    → find_file toupper (suc n) fuel t path 0
      ≡ shown (find_entry toupper fuel t path t.root_cluster)
unfolding find_file
find_file-IsFlat toupper n fuel t path f =
    let go : Option (List ℕ) → Option (Option (ℕ × ℕ)) → Option (Option (ℕ × ℕ) × Bool) = λ next r.
      elim r as (λ x. Option (Option (ℕ × ℕ) × Bool)) [
        | none ↦ none
        | some found ↦
            found_entry (λ below first. find_file toupper n fuel t below first) t next found
      ] in
    ap
      (λ (x : List ℕ × ℕ).
        let (path_elem, next) = next_path_element x.0 in
        go next (find_entry toupper fuel t path_elem x.1))
      (find_start-IsFlat t path f)
    ∙ ap (λ (x : List ℕ × Option (List ℕ)). go x.1 (find_entry toupper fuel t x.0 t.root_cluster))
        (next_path_element-IsFlat path f)
    ∙ shown_last (λ below first. find_file toupper n fuel t below first) t
        (find_entry toupper fuel t path t.root_cluster)

shown_missing : (r : Option (Option (ℕ × ℕ))) → shown r ≡ some (none, false) → r ≡ some none
shown_missing none h = absurd (ground arith)
shown_missing (some none) h = refl
shown_missing (some (some at)) h = absurd (ground arith)

-- What CreateFile leaves: the new entry, with its name and no content, and everything else as it was.
pub record IsCreated (toupper : ℕ → ℕ) (path : List ℕ) (c i : ℕ) (t t' : Tree) : Type 0 where
  pub same_volume : t'.volume ≡ t.volume
  pub same_root : t'.root_cluster ≡ t.root_cluster
  pub named : (t'.entries c i).name ≡ set_file_name toupper path
  pub is_empty : (t'.entries c i).file_size ≡ 0
  pub others : (d j : ℕ) → (d == c && j == i) ≡ false → t'.entries d j ≡ t.entries d j

-- CreateFile of a name of at most 8 characters, at least one, and an extension of at most 3, none of
-- them a NUL, a space, a dot or a slash, where `toupper` makes none of the first three, in a root
-- directory that has a free entry in its chain and where FindFile does not find the name: it succeeds
-- with an entry of that name and of size 0, changes nothing else, and FindFile of the same path then
-- returns the new entry.
pub create_file-find_file :
    (toupper : ℕ → ℕ) (base ext : List ℕ) (n fuel : ℕ) (t : Tree)
    → ((c : ℕ) → IsPlain (c ∷ []) → IsPlain (toupper c ∷ []))
    → IsPlain base
    → IsPlain ext
    → 0 < length base
    → length base ≤ 8
    → length ext ≤ 3
    → IsFlat (joined base ext)
    → t.root_cluster ≢ end_of_clusterchain
    → has_free fuel t t.root_cluster ≡ true
    → find_file toupper (suc n) fuel t (joined base ext) 0 ≡ some (none, false)
    → (c : ℕ) × (i : ℕ) × (t' : Tree) × (create_file toupper fuel t (joined base ext)
        ≡ some (record { value = some (c, i); error = Code.success }, t'))
      × IsCreated toupper (joined base ext) c i t t'
      × (find_file toupper (suc n) fuel t' (joined base ext) 0 ≡ some (some (c, i), false))
unfolding create_file create_in put_named
create_file-find_file toupper [] ext n fuel t keeps p q pos b e f far h missing =
    absurd (omega (arith, pos))
create_file-find_file toupper (x ∷ xs) ext n fuel t keeps (px, p) q pos b e f far h missing =
    let base = x ∷ xs in
    let path = joined base ext in
    let packs = set_file_name-packed toupper base ext (px, p) q b e in
    let equal =
      (set_file_name-equal toupper base ext base ext keeps (px, p) q (px, p) q b e b e).1.1
        (refl, refl) in
    let starts : get_or (set_file_name toupper path) 0 0 ≢ 0 =
      subst (λ (name : List ℕ). get_or name 0 0 ≢ 0) (sym packs) (keeps x (px, tt)).0.0 in
    let named : ℕ → ℕ → NamedEntry =
      λ c i. record (t.entries c i) { name = set_file_name toupper path; file_size = 0 } in
    let missing' = shown_missing _ (sym (find_file-IsFlat toupper n fuel t path f) ∙ missing) in
    let (c, i, placed, free, found) =
      find_created toupper t path named (λ d j. starts) (λ d j. equal) fuel t.root_cluster far h
        missing' in
    let t' = put_named t c i (named c i) in
    (
      c,
      i,
      t',
      rw (create_file, last_slash-IsFlat path f, create_in, placed) refl,
      record {
        same_volume = refl;
        same_root = refl;
        named = ap (λ (y : NamedEntry). y.name) (put_here t c i (named c i));
        is_empty = ap (λ (y : NamedEntry). y.file_size) (put_here t c i (named c i));
        others = λ d j other. put_there t c i d j (named c i) other;
      },
      find_file-IsFlat toupper n fuel t' path f ∙ ap shown found,
    )
