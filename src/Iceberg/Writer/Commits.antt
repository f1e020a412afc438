-- ===== src/Iceberg/Writer/Commits.antt =====
-- internal/iceberg/writer/writer.go: which events a write has committed when it succeeds.
use Prim.Native.String.{String, ◌++◌ as ◌joined◌}
use text.Mathlib.Text.{◌==◌ as str_eq}
use text.Mathlib.TextEquality.{eq_iff}
use mathlib.Core.List.{Perm, append_assoc, append-nil}
use mathlib.Core.List.Perm
use philotes.Common.{
  ℕ, ◌≡◌, refl, sym, ap, subst, ◌⊎◌, ◌∙◌, inl, inr, Bool, true, false, Option, none, some, List, [],
  ◌∷◌, ◌++◌, keep, if◌then◌else◌, Bool-cases, arith,
}
use philotes.Common.Errors.{wrapped, Fallible, ok, err}
use philotes.Common.Maps.{lookup, lookup-put}
use philotes.Buffer.{BufferedEvent}
use philotes.Iceberg.Writer.{
  IcebergConfig, IcebergServices, IcebergWriter, ParquetResult, WriteEnd, written, index_panics,
  write_failed, behind, behind_end, fully_qualified_table, add_to_group, group_events,
  group_events_by_table, parse_table_key, get_table_data_path, write_parquet, ensure_table,
  data_file, commit_file, commit_failed, write_table_events, write_groups, write_events,
}

abbrev pub is_written : WriteEnd → Bool
is_written written = true
is_written index_panics = false
is_written (write_failed x) = false

not_written : (end : WriteEnd) → is_written end ≡ false → end ≡ written → ⊥
not_written end h e = ground (arith, h, ap is_written e)

module _ {W S : Type 0} where
  behind-written :
      {A : Type 0} (code : ℕ) (st st' : S) (r : Fallible A × W) (next : A → W → WriteEnd × S × W)
      (w' : W)
      → behind code st r next ≡ (written, st', w')
      → (a : A) × (w1 : W) × (r ≡ (ok a, w1)) × (next a w1 ≡ (written, st', w'))
  behind-written code st st' (ok a, w) next w' h = (a, w, refl, h)
  behind-written code st st' (err x, w) next w' h = absurd (not_written _ refl (ap (λ t. t.0) h))

  behind_end-written :
      (code : ℕ) (r : WriteEnd × S × W) (next : S → W → WriteEnd × S × W) (st' : S) (w' : W)
      → behind_end code r next ≡ (written, st', w')
      → (st : S) × (w : W) × (r ≡ (written, st, w)) × (next st w ≡ (written, st', w'))
  behind_end-written code (written, st, w) next st' w' h = (st, w, refl, h)
  behind_end-written code (index_panics, st, w) next st' w' h =
      absurd (not_written _ refl (ap (λ t. t.0) h))
  behind_end-written code (write_failed x, st, w) next st' w' h =
      absurd (not_written _ refl (ap (λ t. t.0) h))

-- The list itself, unless it is empty.
abbrev pub non_empty : {A : Type 0} → List A → Option (List A)
non_empty [] = none
non_empty (x ∷ xs) = some (x ∷ xs)

abbrev pub of_table : String → List BufferedEvent → List BufferedEvent
of_table key es = keep (λ e. str_eq (fully_qualified_table e.event) key) es

-- The events of a table, behind those that its group had.
abbrev joined_group : Option (List BufferedEvent) → List BufferedEvent → Option (List BufferedEvent)
joined_group none es = non_empty es
joined_group (some old) es = some (old ++ es)

grown :
    (o : Option (List BufferedEvent)) (e : BufferedEvent)
    → some (elim o [ none ↦ e ∷ [] | some es ↦ es ++ (e ∷ []) ]) ≡ joined_group o (e ∷ [])
grown none e = refl
grown (some old) e = refl

joined_group-nothing : (o : Option (List BufferedEvent)) → o ≡ joined_group o []
joined_group-nothing none = refl
joined_group-nothing (some old) = ap some (sym (append-nil old))

lookup-add_to_group :
    (key k : String) (e : BufferedEvent) (groups : List (String × List BufferedEvent))
    → lookup k (add_to_group key e groups)
      ≡ (if str_eq key k then joined_group (lookup key groups) (e ∷ []) else lookup k groups)
lookup-add_to_group key k e groups =
    lookup-put key k _ groups
    ∙ ap (λ o. if str_eq key k then o else lookup k groups) (grown (lookup key groups) e)

joined_group-more :
    (o : Option (List BufferedEvent)) (e : BufferedEvent) (es : List BufferedEvent)
    → joined_group (joined_group o (e ∷ [])) es ≡ joined_group o (e ∷ es)
joined_group-more none e es = refl
joined_group-more (some old) e es = ap some (append_assoc old (e ∷ []) es)

group_events-lookup :
    (groups : List (String × List BufferedEvent)) (es : List BufferedEvent) (k : String)
    → lookup k (group_events groups es) ≡ joined_group (lookup k groups) (of_table k es)
unfolding group_events
group_events-lookup groups [] k = joined_group-nothing (lookup k groups)
group_events-lookup groups (e ∷ es) k =
    let key = fully_qualified_table e.event in
    elim (Bool-cases (str_eq key k)) [
      | inl same ↦
          group_events-lookup (add_to_group key e groups) es k
          ∙ rw (lookup-add_to_group key k e groups, same)
              (joined_group-more (lookup key groups) e (of_table k es)
                ∙ ap (λ n. joined_group (lookup n groups) (e ∷ of_table k es))
                    ((eq_iff key k).0 same))
      | inr other ↦
          group_events-lookup (add_to_group key e groups) es k
          ∙ rw (lookup-add_to_group key k e groups, other) refl
    ]

behind_end-stopped :
    {W S : Type 0} (code : ℕ) (r : WriteEnd × S × W) (next : S → W → WriteEnd × S × W)
    (end : WriteEnd) (st' : S) (w' : W)
    → is_written end ≡ false
    → behind_end code r next ≡ (end, st', w')
    → ((st : S) × (w : W) × (r ≡ (written, st, w)) × (next st w ≡ (end, st', w')))
      ⊎ ((end1 : WriteEnd) × (r ≡ (end1, st', w')) × (is_written end1 ≡ false))
behind_end-stopped code (written, st, w) next end st' w' e h = inl (st, w, refl, h)
behind_end-stopped code (index_panics, st, w) next end st' w' e h =
    inr (index_panics, ap (λ t. (index_panics, t.1, t.2)) h, refl)
behind_end-stopped code (write_failed x, st, w) next end st' w' e h =
    inr (write_failed x, ap (λ t. (write_failed x, t.1, t.2)) h, refl)

module _ {W : Type 0} (s : IcebergServices W) (cfg : IcebergConfig) where
  abbrev ended : Fallible (Unit {0}) × W → (W → W) → IcebergWriter → WriteEnd × IcebergWriter × W
  ended r gone st = elim (r.0) [
    | ok _ ↦ (written, st, r.1)
    | err x ↦ (write_failed (wrapped commit_failed x), st, gone r.1)
  ]

  commit_end :
      (r : Fallible (Unit {0}) × W) (gone : W → W) (st st' : IcebergWriter) (w' : W)
      → ended r gone st ≡ (written, st', w')
      → (st ≡ st') × (r ≡ (ok tt, w'))
  commit_end (ok u, w) gone st st' w' h = (ap (λ t. t.1) h, ap (λ t. (ok tt, t.2)) h)
  commit_end (err x, w) gone st st' w' h = absurd (not_written _ refl (ap (λ t. t.0) h))

  -- A file with the events of a group was encoded and uploaded behind the check of its table, and was
  -- committed, which was the last call.
  abbrev pub Committed :
      String → List BufferedEvent → IcebergWriter → W → IcebergWriter → W → Type 0
  Committed table_key es st w st' w' =
      let names = parse_table_key cfg table_key in
      (w1 : W) × (w2 : W) × (w3 : W) × (result : ParquetResult) × (ensure_table s cfg names.0
          names.1 es st w
        ≡ (written, st', w1))
      × (write_parquet s cfg es w1 ≡ (ok result, w2))
      × (let key = get_table_data_path cfg names.0 names.1 joined "/" joined result.file_name in
          (s.upload cfg.bucket key result.file_data result.file_size_in_bytes w2 ≡ (ok tt, w3))
          × (s.commit_snapshot names.0 names.1 (data_file s cfg key result ∷ []) w3 ≡ (ok tt, w')))

  -- The groups were committed one after another; a group of no events needs no file.
  unfoldable pub AllCommitted :
      List (String × List BufferedEvent) → IcebergWriter → W → IcebergWriter → W → Type 0
  AllCommitted [] st w st' w' = (st ≡ st') × (w ≡ w')
  AllCommitted ((key, []) ∷ rest) st w st' w' = AllCommitted rest st w st' w'
  AllCommitted ((key, e ∷ es) ∷ rest) st w st' w' =
      (st1 : IcebergWriter) × (w1 : W) × Committed key (e ∷ es) st w st1 w1
      × AllCommitted rest st1 w1 st' w'

  commit_file-written :
      (namespace table key : String) (result : ParquetResult) (st st' : IcebergWriter) (w w' : W)
      → commit_file s cfg namespace table key result st w ≡ (written, st', w')
      → (st ≡ st')
        × (s.commit_snapshot namespace table (data_file s cfg key result ∷ []) w ≡ (ok tt, w'))
  commit_file-written namespace table key result st st' w w' h =
      commit_end (s.commit_snapshot namespace table (data_file s cfg key result ∷ []) w)
        (λ w. (s.delete_file cfg.bucket key w).1) st st' w' h

  write_table_events-Committed :
      (key : String) (e : BufferedEvent) (es : List BufferedEvent) (st st' : IcebergWriter)
      (w w' : W)
      → write_table_events s cfg key (e ∷ es) st w ≡ (written, st', w')
      → Committed key (e ∷ es) st w st' w'
  unfolding write_table_events
  write_table_events-Committed key e es st st' w w' h =
      let (st1, w1, e1, h1) = behind_end-written _ _ _ st' w' h in
      let (result, w2, e2, h2) = behind-written _ st1 st' _ _ w' h1 in
      let (u, w3, e3, h3) = behind-written _ st1 st' _ _ w' h2 in
      let (same, e4) = commit_file-written _ _ _ result st1 st' w3 w' h3 in
      (w1, w2, w3, result, e1 ∙ ap (λ x. (written, x, w1)) same, e2, (e3, e4))

  more_committed :
      (key : String) (es : List BufferedEvent) (rest : List (String × List BufferedEvent))
      (st st1 st' : IcebergWriter) (w w1 w' : W)
      → write_table_events s cfg key es st w ≡ (written, st1, w1)
      → AllCommitted rest st1 w1 st' w'
      → AllCommitted ((key, es) ∷ rest) st w st' w'
  unfolding write_table_events AllCommitted
  more_committed key [] rest st st1 st' w w1 w' h k =
      subst (λ u. AllCommitted rest u.1 u.2 st' w') (sym h) k
  more_committed key (e ∷ es) rest st st1 st' w w1 w' h k =
      (st1, w1, write_table_events-Committed key e es st st1 w w1 h, k)

  -- A group at which a write stops, with what it leaves, behind those that were committed.
  abbrev pub Stopped :
      List (String × List BufferedEvent) → IcebergWriter → W → IcebergWriter → W → Type 0
  Stopped groups st w st' w' =
      (before : List (String × List BufferedEvent)) × (key : String) × (es : List BufferedEvent)
      × (after : List (String × List BufferedEvent)) × (st1 : IcebergWriter) × (w1 : W)
      × (end : WriteEnd) × (groups ≡ before ++ ((key, es) ∷ after))
      × AllCommitted before st w st1 w1
      × (write_table_events s cfg key es st1 w1 ≡ (end, st', w'))
      × (is_written end ≡ false)

  write_groups-AllCommitted :
      (groups : List (String × List BufferedEvent)) (st st' : IcebergWriter) (w w' : W)
      → write_groups s cfg groups st w ≡ (written, st', w')
      → AllCommitted groups st w st' w'
  unfolding write_groups AllCommitted
  write_groups-AllCommitted [] st st' w w' h = (ap (λ t. t.1) h, ap (λ t. t.2) h)
  write_groups-AllCommitted ((key, es) ∷ rest) st st' w w' h =
      let (st1, w1, here, there) = behind_end-written _ _ _ st' w' h in
      more_committed key es rest st st1 st' w w1 w' here
        (write_groups-AllCommitted rest st1 st' w1 w' there)

  write_groups-Stopped :
      (groups : List (String × List BufferedEvent)) (end : WriteEnd) (st st' : IcebergWriter)
      (w w' : W)
      → is_written end ≡ false
      → write_groups s cfg groups st w ≡ (end, st', w')
      → Stopped groups st w st' w'
  unfolding write_groups AllCommitted
  write_groups-Stopped [] end st st' w w' e h = absurd (not_written end e (sym (ap (λ t. t.0) h)))
  write_groups-Stopped ((key, es) ∷ rest) end st st' w w' e h =
      elim (behind_end-stopped _ (write_table_events s cfg key es st w) (write_groups s cfg rest)
        end st' w' e h) [
          | inr (end1, here, f) ↦ ([], key, es, rest, st, w, end1, refl, (refl, refl), here, f)
          | inl (st1, w1, here, there) ↦
              let (before, key2, es2, after, st2, w2, end1, split, all, stop, f) =
                write_groups-Stopped rest end st1 st' w1 w' e there in
              (
                (key, es) ∷ before,
                key2,
                es2,
                after,
                st2,
                w2,
                end1,
                ap (λ gs. (key, es) ∷ gs) split,
                more_committed key es before st st1 st2 w w1 w2 here all,
                stop,
                f,
              )
        ]

-- A batch is grouped by its tables: the group of a table has just the events of that table, in their order,
-- and a table without events has none. In whichever order the groups are then read: a write that succeeds
-- has committed a file for each of them, one after another, each with an upload of the encoded events of
-- just that group right before its commit; one that does not succeed has committed such files for the groups
-- before some group, and ended at that one, whose write did not succeed.
pub write_events-commits :
    {W : Type 0} (s : IcebergServices W) (cfg : IcebergConfig)
    (order : List (String × List BufferedEvent) → List (String × List BufferedEvent))
    (es : List BufferedEvent) (end : WriteEnd) (st st' : IcebergWriter) (w w' : W)
    → ((groups : List (String × List BufferedEvent)) → Perm (order groups) groups)
    → write_events s cfg order es st w ≡ (end, st', w')
    → ((key : String) → lookup key (group_events_by_table es) ≡ non_empty (of_table key es))
      × (end ≡ written → AllCommitted s cfg (order (group_events_by_table es)) st w st' w')
      × (is_written end ≡ false → Stopped s cfg (order (group_events_by_table es)) st w st' w')
unfolding write_events group_events lookup AllCommitted
write_events-commits s cfg order [] end st st' w w' law h = (
  λ key. refl,
  λ e.
      subst (λ gs. AllCommitted s cfg gs st w st' w') (sym (Perm.eq-nil (law [])))
        (ap (λ t. t.1) h, ap (λ t. t.2) h),
  λ e. absurd (not_written end e (sym (ap (λ t. t.0) h))),
)
write_events-commits s cfg order (e ∷ es) end st st' w w' law h =
    let groups = order (group_events_by_table (e ∷ es)) in
    (
      λ key. group_events-lookup [] (e ∷ es) key,
      λ good. write_groups-AllCommitted s cfg groups st st' w w' (h ∙ ap (λ x. (x, st', w')) good),
      λ bad. write_groups-Stopped s cfg groups end st st' w w' bad h,
    )
