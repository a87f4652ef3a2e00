-- ===== src/Discovery/Report/Complete.antt =====
-- What the report cannot miss.
use schedcore.Prelude.{
  Option-cases, inl, inr, ◌≡◌, refl, ℕ, ◌+◌, String, Option, some, Bool, true, false, List, [], ◌∷◌,
  arith, string_eq, nat_eq, pair_eq, contains, get_elem?,
}
use mathlib.Core.Path.{subst}
use mathlib.Core.Bool.{false≢true}
use schedcore.Prelude.Split.{Unicode, split}
use schedcore.Prelude.Result.{ok, ◌>>=◌, >>=-eq-ok, ok-injective}
use schedcore.Prelude.Sorting.{any, any-sorted, contains-sorted, sorted, str_lt}
use schedcore.Prelude.Dict.{has_key, keys}
use schedcore.Discovery.Files.{Folder, collect_source_files, walk, extensions}
use schedcore.Discovery.Entry.{Node, Place, place_of_name, places, analyze_args}
use schedcore.Discovery.Names.{regex_find_thread_names}
use schedcore.Discovery.Calls.{Call, Wrappers, Findings, find_call_expressions, analyze_calls}
use schedcore.Discovery.Calls.Growing.{
  growing, Grows, contains-places-append, analyze_declarations-Grows,
}
use schedcore.Discovery.Calls.Naming.{names_thread, Named, analyze_calls-Named}
use schedcore.Discovery.Report.{
  Loaded, Report, learn, first_pass, tree_findings, missed, with_missed, no_findings, analyze_file,
  second_pass, add_file, no_report, deduplicate, analyze, get_parser,
}
use schedcore.Discovery.Report.Learning.{defines, first_pass-macros, learn-keeps}
use schedcore.Discovery.Report.Places.{contains-places-deduped}

names_thread_mono :
    (a b : Bool) (name : String) (args : List Node)
    → (a ≡ true → b ≡ true)
    → names_thread a name args ≡ true
    → names_thread b name args ≡ true
names_thread_mono true true name args imp h = h
names_thread_mono true false name args imp h = absurd (false≢true (imp refl))
names_thread_mono false true name args imp h = ground arith
names_thread_mono false false name args imp h = h

module _ (u : Unicode) (language rel_path : String) where
  tree_findings-Grows :
      (known : Wrappers) (file : Loaded)
      → Grows
          (analyze_calls u rel_path
            (split "\n" file.source_text)
            known
            no_findings
            (find_call_expressions file.tree language))
          (tree_findings u language rel_path known file)
  unfolding tree_findings
  tree_findings-Grows known file = search (growing, analyze_declarations-Grows)

  with_missed-Grows :
      (known : Wrappers) (file : Loaded) (f : Findings)
      → Grows f (with_missed u rel_path known file f)
  unfolding with_missed
  with_missed-Grows known file f = record {
    names = λ p h. ground (
      arith,
      contains-places-append place_of_name f.names
          (missed (places place_of_name f.names) (
            regex_find_thread_names u file.source_text (split "\n" file.source_text) rel_path
              known.macro_wrappers))
          p,
    );
    creates = λ p h. h;
  }

  tree_findings-Named :
      (known : Wrappers) (file : Loaded) (i : ℕ) (c : Call)
      → get_elem? (find_call_expressions file.tree language) i ≡ some c
      → Named rel_path known
          (with_missed u rel_path known file (tree_findings u language rel_path known file))
          c
  tree_findings-Named known file i c at h =
      (with_missed-Grows known file (tree_findings u language rel_path known file)).names
        (rel_path, c.func.row + 1)
        ((tree_findings-Grows known file).names (rel_path, c.func.row + 1)
          (analyze_calls-Named u rel_path (split "\n" file.source_text) known no_findings
            (find_call_expressions file.tree language) i c at h))

module _ (u : Unicode) (load : String → Option Loaded) (relpath : String → String)
    (language : String) where
  analyze_file-Named :
      (p : String) (known : Wrappers) (file : Loaded) (i : ℕ) (c : Call)
      → load p ≡ some file
      → get_elem? (find_call_expressions file.tree language) i ≡ some c
      → Named (relpath p) known (analyze_file u load relpath language p known).findings c
  unfolding analyze_file
  analyze_file-Named p known file i c read at h = rw read (
      tree_findings-Named u language (relpath p) (learn u known file.source_text) file i c at (
        names_thread_mono (has_key c.func.text known.macro_wrappers)
          (has_key c.func.text (learn u known file.source_text).macro_wrappers) c.func.text
          (analyze_args c.children) (learn-keeps u known file.source_text c.func.text) h))

  analyze_file-keeps :
      (p : String) (known : Wrappers) (k : String)
      → has_key k known.macro_wrappers ≡ true
      → has_key k (analyze_file u load relpath language p known).known.macro_wrappers ≡ true
  unfolding analyze_file
  analyze_file-keeps p known k h = elim (Option-cases (load p)) [
    | inl absent ↦ rw absent h
    | inr (file, read) ↦ rw read (learn-keeps u known file.source_text k h)
  ]

  second_pass-Grows :
      (r : Report) (files : List String) (p : Place)
      → contains (places place_of_name r.thread_names) p ≡ true
      → contains (places place_of_name (second_pass u load relpath language r files).thread_names) p
        ≡ true
  unfolding second_pass
  second_pass-Grows r [] p h = h
  second_pass-Grows r (q ∷ files) p h =
      let a = analyze_file u load relpath language q r.known in
      second_pass-Grows (add_file r a) files p
        (ground (arith, contains-places-append place_of_name r.thread_names a.findings.names p))

  second_pass-names :
      (r : Report) (files : List String) (p : String) (file : Loaded) (i : ℕ) (c : Call)
      → contains files p ≡ true
      → load p ≡ some file
      → get_elem? (find_call_expressions file.tree language) i ≡ some c
      → names_thread
          (has_key c.func.text r.known.macro_wrappers)
          c.func.text
          (analyze_args c.children)
        ≡ true
      → contains
          (places place_of_name (second_pass u load relpath language r files).thread_names)
          (relpath p, c.func.row + 1)
        ≡ true
  unfolding second_pass
  second_pass-names r [] p file i c listed read at h = cc
  second_pass-names r (q ∷ files) p file i c listed read at h =
      let a = analyze_file u load relpath language q r.known in
      elim (string_eq.dec p q) [
        | yes e ↦
            second_pass-Grows (add_file r a) files (relpath p, c.func.row + 1)
              (ground (
                arith,
                contains-places-append place_of_name r.thread_names a.findings.names
                    (relpath p, c.func.row + 1),
                subst
                    (λ x.
                      Named (relpath p) r.known
                        (analyze_file u load relpath language x r.known).findings c)
                    e (analyze_file-Named p r.known file i c read at) h,
              ))
        | no n ↦ second_pass-names (add_file r a) files p file i c (ground arith) read at (
            names_thread_mono (has_key c.func.text r.known.macro_wrappers)
              (has_key c.func.text a.known.macro_wrappers) c.func.text (analyze_args c.children)
              (analyze_file-keeps q r.known c.func.text) h)
      ]

  -- A report that is returned is that of the two passes.
  pub analyze-returned :
      (source : String) (dir : Folder) (r : Report)
      → analyze u load relpath language source dir ≡ ok r
      → (known : Wrappers) × (first_pass u load
            (record { macro_wrappers = []; proc_title_setters = [] })
            (collect_source_files source dir language)
          ≡ ok known)
        × (deduplicate (
              second_pass u load relpath language
                (no_report known)
                (collect_source_files source dir language))
            ≡ r)
  unfolding analyze
  analyze-returned source dir r returns =
      let files = collect_source_files source dir language in
      let passes = λ (known : Wrappers).
        ok (deduplicate (second_pass u load relpath language (no_report known) files)) in
      let first =
        first_pass u load (record { macro_wrappers = []; proc_title_setters = [] }) files in
      let (parser, supported, scanned) =
        >>=-eq-ok (get_parser language) (λ parser. first >>= passes) returns in
      let (known, passed, same) = >>=-eq-ok first passes scanned in
      (
        known,
        passed,
        ok-injective (deduplicate (second_pass u load relpath language (no_report known) files)) r
            same,
      )

  -- In a report, a call in a file that is collected and can be opened has an entry at its file and
  -- line if it names a thread: a call of `pthread_setname_np` with an argument, a call of `prctl`
  -- with `PR_SET_NAME` and a second argument, or a call, with an argument, of a macro for one of the
  -- two that any of the files defines.
  pub analyze_complete :
      (source : String) (dir : Folder) (r : Report) (p : String) (file : Loaded) (i : ℕ) (c : Call)
      → analyze u load relpath language source dir ≡ ok r
      → contains (walk (extensions language) source dir) p ≡ true
      → load p ≡ some file
      → get_elem? (find_call_expressions file.tree language) i ≡ some c
      → names_thread
          (any (λ q. defines u c.func.text (load q)) (walk (extensions language) source dir))
          c.func.text
          (analyze_args c.children)
        ≡ true
      → contains (places place_of_name r.thread_names) (relpath p, c.func.row + 1) ≡ true
  unfolding collect_source_files deduplicate has_key keys
  analyze_complete source dir r p file i c returns listed read at h =
      let files = sorted str_lt (walk (extensions language) source dir) in
      let (known, passed, same) = analyze-returned source dir r returns in
      let place : Place = (relpath p, c.func.row + 1) in
      let found = second_pass u load relpath language (no_report known) files in
      subst (λ x. contains (places place_of_name x.thread_names) place ≡ true) same
        (ground (
          arith,
          contains-places-deduped place_of_name [] found.thread_names place,
          second_pass-names (no_report known) files p file i c
              (rw (contains-sorted str_lt (walk (extensions language) source dir) p) listed) read at
              (rw
                (
                  first_pass-macros u load (record { macro_wrappers = []; proc_title_setters = [] })
                      known files c.func.text passed,
                  any-sorted (λ q. defines u c.func.text (load q)) str_lt
                      (walk (extensions language) source dir),
                )
                h),
        ))
