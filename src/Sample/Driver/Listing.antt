-- ===== src/Sample/Driver/Listing.antt =====
-- The volumes that list gives, and the entries of the root.
use mathlib.Core.Path.{subst}
use docker_plugin_cpp.Base.{
  ◌≡◌, refl, sym, ap, ◌∙◌, ◌&&◌, ◌||◌, List, [], ◌∷◌, map, some, Bytes, text, bytes_eq, c_str, Bool,
  true, false, not, arith, Ordering, All, compare_by, compare_by-eq_iff, Bool-cases, inl, inr,
  if◌then◌else◌, if_true, if_false,
}
use docker_plugin_cpp.Json.{byte_rank}
use docker_plugin_cpp.Result.{returned}
use docker_plugin_cpp.Volume.{VolumeInfo}
use docker_plugin_cpp.Sample.Files.{Files, DirEntry}
use docker_plugin_cpp.Sample.Util.{is_dot, loop_entries, loop_dir}
use docker_plugin_cpp.Sample.Driver.{insert, info, list_entry, list}

map-byte_rank : (s : Bytes) → map byte_rank s ≡ s
map-byte_rank [] = refl
map-byte_rank (b ∷ s) = ap (◌∷◌ b) (map-byte_rank s)

same_name : (s t : Bytes) → compare_by byte_rank s t ≡ Ordering.eq → s ≡ t
same_name s t e = sym (map-byte_rank s) ∙ (compare_by-eq_iff byte_rank s t).0 e ∙ map-byte_rank t

compare_by_swap :
    (s t : Bytes) → compare_by byte_rank s t ≡ Ordering.gt → compare_by byte_rank t s ≡ Ordering.lt
unfolding compare_by
compare_by_swap [] [] e = cc
compare_by_swap [] (b ∷ t) e = cc
compare_by_swap (a ∷ s) [] e = refl
compare_by_swap (a ∷ s) (b ∷ t) e = ground (arith, compare_by_swap s t)

-- The volumes have a name, by the comparison of std::string.
abbrev pub has_name : Bytes → List VolumeInfo → Bool
has_name k [] = false
has_name k (v ∷ volumes) = bytes_eq k v.name || has_name k volumes

-- The names go up strictly: no volume is there twice.
abbrev pub IsAscending : List VolumeInfo → Type 0
IsAscending [] = Unit
IsAscending (v ∷ []) = Unit
IsAscending (v ∷ x ∷ volumes) =
    (compare_by byte_rank v.name x.name ≡ Ordering.lt) × IsAscending (x ∷ volumes)

has_name-insert :
    (k : Bytes) (v : VolumeInfo) (volumes : List VolumeInfo)
    → has_name k (insert v volumes) ≡ (bytes_eq k v.name || has_name k volumes)
unfolding insert
has_name-insert k v [] = refl
has_name-insert k v (x ∷ volumes) =
    ground (arith, has_name-insert k v volumes, same_name v.name x.name)

insert-IsAscending :
    (v : VolumeInfo) (volumes : List VolumeInfo)
    → IsAscending volumes
    → IsAscending (insert v volumes)
unfolding insert
insert-IsAscending v [] h = tt
insert-IsAscending v (x ∷ []) h = ground (arith, compare_by_swap v.name x.name)
insert-IsAscending v (x ∷ y ∷ volumes) (lt, h) = ground (
  arith,
  compare_by_swap v.name x.name,
  compare_by_swap v.name y.name,
  insert-IsAscending v (y ∷ volumes) h,
)

All_of_order :
    (P : VolumeInfo → Type 0) (v x : VolumeInfo) (volumes inserted : List VolumeInfo)
    → P v
    → P x
    → All P volumes
    → All P inserted
    → (o : Ordering)
    → All P (elim o [
      | Ordering.lt ↦ v ∷ x ∷ volumes
      | Ordering.eq ↦ x ∷ volumes
      | Ordering.gt ↦ x ∷ inserted
    ])
All_of_order P v x volumes inserted p q h k Ordering.lt = (p, (q, h))
All_of_order P v x volumes inserted p q h k Ordering.eq = (q, h)
All_of_order P v x volumes inserted p q h k Ordering.gt = (q, k)

All-insert :
    (P : VolumeInfo → Type 0) (v : VolumeInfo) (volumes : List VolumeInfo)
    → P v
    → All P volumes
    → All P (insert v volumes)
unfolding insert
All-insert P v [] p h = (p, tt)
All-insert P v (x ∷ volumes) p (q, h) =
    All_of_order P v x volumes (insert v volumes) p q h (All-insert P v volumes p h)
      (compare_by byte_rank v.name x.name)

-- A directory of that name is among the entries, and is not . or ..
abbrev pub is_listed : Bytes → List DirEntry → Bool
is_listed k [] = false
is_listed k (e ∷ es) = (e.is_dir && not (is_dot e.d_name) && bytes_eq k e.d_name) || is_listed k es

module _ {W : Type 0} (files : Files W) (root : Bytes) where
  -- The volumes of some entries, in a world.
  pub record Lists (w : W) (es : List DirEntry) (volumes : List VolumeInfo) : Type 0 where
    pub ascending : IsAscending volumes
    pub named : (k : Bytes) → has_name k volumes ≡ is_listed k es
    pub described : All (λ v. v ≡ info files root v.name w) volumes

  -- What a run of the loop adds to the volumes that it begins with.
  record Adds (w : W) (es : List DirEntry) (before : List VolumeInfo) (r : Bool × List VolumeInfo)
      : Type 0 where
    ended : r.0 ≡ true
    ascending : IsAscending r.1
    named : (k : Bytes) → has_name k r.1 ≡ (has_name k before || is_listed k es)
    described : All (λ v. v ≡ info files root v.name w) r.1

  -- The volumes behind one entry.
  abbrev step : W → DirEntry → List VolumeInfo → List VolumeInfo
  step w e volumes =
      if not e.is_dir || is_dot e.d_name
      then volumes
      else insert (info files root e.d_name w) volumes

  loop_entries-step :
      (w : W) (e : DirEntry) (es : List DirEntry) (before : List VolumeInfo)
      → loop_entries (list_entry files root w) (e ∷ es) before
        ≡ loop_entries (list_entry files root w) es (step w e before)
  unfolding loop_entries list_entry
  loop_entries-step w e es before = elim (Bool-cases (not e.is_dir || is_dot e.d_name)) [
    | inl skipped ↦ cc skipped
    | inr taken ↦ cc taken
  ]

  step-IsAscending :
      (w : W) (e : DirEntry) (before : List VolumeInfo)
      → IsAscending before
      → IsAscending (step w e before)
  step-IsAscending w e before up =
      ground (arith, insert-IsAscending (info files root e.d_name w) before)

  has_name-step :
      (w : W) (e : DirEntry) (before : List VolumeInfo) (k : Bytes)
      → has_name k (step w e before)
        ≡ (has_name k before || (e.is_dir && not (is_dot e.d_name) && bytes_eq k e.d_name))
  unfolding info
  has_name-step w e before k = ground (arith, has_name-insert k (info files root e.d_name w) before)

  described-step :
      (w : W) (e : DirEntry) (before : List VolumeInfo)
      → All (λ v. v ≡ info files root v.name w) before
      → All (λ v. v ≡ info files root v.name w) (step w e before)
  unfolding info
  described-step w e before h = elim (Bool-cases (not e.is_dir || is_dot e.d_name)) [
    | inl skipped ↦ subst (All (λ v. v ≡ info files root v.name w)) (sym (if_true _ _ skipped)) h
    | inr taken ↦
        subst (All (λ v. v ≡ info files root v.name w)) (sym (if_false _ _ taken)) (
          All-insert (λ v. v ≡ info files root v.name w) (info files root e.d_name w) before refl h)
  ]

  loop_entries-Adds :
      (w : W) (es : List DirEntry) (before : List VolumeInfo)
      → IsAscending before
      → All (λ v. v ≡ info files root v.name w) before
      → Adds w es before (loop_entries (list_entry files root w) es before)
  unfolding loop_entries
  loop_entries-Adds w [] before up described = record {
    ended = refl;
    ascending = up;
    named = λ k. ground arith;
    described = described;
  }
  loop_entries-Adds w (e ∷ es) before up described =
      let rest =
        loop_entries-Adds w es (step w e before) (step-IsAscending w e before up)
          (described-step w e before described) in
      subst (Adds w (e ∷ es) before) (sym (loop_entries-step w e es before)) (record {
        ended = rest.ended;
        ascending = rest.ascending;
        named = λ k. ground (arith, rest.named k, has_name-step w e before k);
        described = rest.described;
      })

  -- Where the root opens, list gives its directories, each once, in the order of their names, and
  -- each with its own path and time; . and .. and the other files are not among them.
  pub list-Lists :
      (w : W) (es : List DirEntry)
      → files.entries (c_str root) (files.print (text "Listing volumes\n") w) ≡ some es
      → let w' = files.print (text "Listing volumes\n") w in
        (volumes : List VolumeInfo) × (list files root w
          ≡ (returned (record { volumes = volumes }), w'))
        × Lists w' es volumes
  unfolding list loop_dir
  list-Lists w es opened =
      let w' = files.print (text "Listing volumes\n") w in
      let added = loop_entries-Adds w' es [] tt tt in
      (
        (loop_entries (list_entry files root w') es []).1,
        cc opened,
        record { ascending = added.ascending; named = added.named; described = added.described },
      )
