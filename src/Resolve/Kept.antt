-- ===== src/Resolve/Kept.antt =====
-- rust/src/resolve.rs: the steps of `load` keep the invariant of the resolver's state.
use skg.Base.{
  ℕ, ◌-◌, true, false, Option, none, some, List, [], ◌∷◌, ◌++◌, Bytes, ◌≡◌, refl, sym, ap, ◌∙◌,
  arith, subst, length, length-append, ltb, leb, Bool-cases, inl, inr,
}
use skg.Model.{Nodes, Document}
use skg.Merge.{merge_overlay}
use skg.Merge.Keyed.{IsKeyed, IsKeyed-IsLoose}
use skg.Merge.Work.{merge_work, spend}
use skg.Merge.Refine.{merge_nodes_budget-spend, merge_overlay-join_all}
use skg.Result.{Ensures, holds, failed, Ensures-if}
use skg.Resolve.Path.{path_beq}
use skg.Resolve.Files.{Loader, get_path}
use skg.Resolve.Done.{
  get_path-same, insert_path-fresh, get_path-append, is_on_chain-head, is_on_chain-tail, off_chain,
}
use skg.Resolve.Guards.{
  is_on_chain, enter_file, charge_bytes, charge_nodes, merged_at, merge_charged, finish_file,
  popped,
}
use skg.Resolve.Options.{max_import_depth, Resolved, Resolver, Origin}
use skg.Resolve.State.{Same, Known, AllKnown, Sane, Step, Entered, Same-trans}

module _ (parse_f64 : Bytes → Option ℕ) (loader : Loader) where
  AllKnown-append :
      (root : Option Bytes) (p : Bytes) (v : Resolved) (l : List (Bytes × Resolved))
      → AllKnown parse_f64 loader root l
      → Known parse_f64 loader root p v
      → AllKnown parse_f64 loader root (l ++ (p, v) ∷ [])
  AllKnown-append root p v [] h k = (k, tt)
  AllKnown-append root p v ((q, w) ∷ more) (hw, hs) k = (hw, AllKnown-append root p v more hs k)

  -- The files on the longer chain are not finished either.
  opened :
      (canonical : Bytes) (r : Resolver)
      → Sane parse_f64 loader r
      → get_path canonical r.done ≡ none
      → (k : Bytes) → is_on_chain k (canonical ∷ r.chain) ≡ true
      → get_path k r.done ≡ none
  unfolding is_on_chain
  opened canonical r h fresh k on = elim (Bool-cases (path_beq canonical k)) [
    | inl same ↦ sym (get_path-same canonical k r.done same) ∙ fresh
    | inr other ↦ h.open_files k (rw other at on)
  ]

  pub charge_bytes-Step :
      (origin : Option Origin) (canonical : Bytes) (size : ℕ) (r : Resolver)
      → Sane parse_f64 loader r
      → Ensures (λ (u, s). Step parse_f64 loader r s) (charge_bytes origin canonical size r)
  unfolding charge_bytes
  charge_bytes-Step origin canonical size r h =
      Ensures-if (ltb (r.max_bytes - r.bytes) size) (λ _. failed _)
        λ fits. holds (record {
          sane = record {
            bytes_fit = ground (arith, h.bytes_fit);
            nodes_fit = h.nodes_fit;
            files_fit = h.files_fit;
            counted = h.counted;
            short = h.short;
            known = h.known;
            open_files = h.open_files;
          };
          same = record {
            root_is = refl;
            bytes_is = refl;
            files_is = refl;
            nodes_is = refl;
            work_is = omega arith;
          };
          chain_is = refl;
        })

  pub charge_nodes-Step :
      (origin : Option Origin) (canonical : Bytes) (count : ℕ) (r : Resolver)
      → Sane parse_f64 loader r
      → Ensures (λ (u, s). Step parse_f64 loader r s) (charge_nodes origin canonical count r)
  unfolding charge_nodes
  charge_nodes-Step origin canonical count r h =
      Ensures-if (ltb (r.max_nodes - r.nodes) count) (λ _. failed _)
        λ fits. holds (record {
          sane = record {
            bytes_fit = h.bytes_fit;
            nodes_fit = ground (arith, h.nodes_fit);
            files_fit = h.files_fit;
            counted = h.counted;
            short = h.short;
            known = h.known;
            open_files = h.open_files;
          };
          same = record {
            root_is = refl;
            bytes_is = refl;
            files_is = refl;
            nodes_is = refl;
            work_is = omega arith;
          };
          chain_is = refl;
        })

  -- A merge within the budget is the unbounded one.
  pub merge_charged-Step :
      (origin : Option Origin) (canonical : Bytes) (base overlay : Nodes) (r : Resolver)
      → Sane parse_f64 loader r
      → IsKeyed base
      → IsKeyed overlay
      → Ensures
          (λ (ns, s). Step parse_f64 loader r s × (ns ≡ merge_overlay base overlay))
          (merge_charged origin canonical base overlay r)
  unfolding merge_charged merged_at spend
  merge_charged-Step origin canonical base overlay r h hb ho =
      let loose = IsKeyed-IsLoose overlay ho in
      rw
        (
          merge_nodes_budget-spend base overlay (some r.remaining_work) hb loose,
          merge_overlay-join_all base overlay hb loose,
        )
        (elim (Bool-cases (ltb r.remaining_work (merge_work base overlay))) [
          | inl short ↦ rw short (failed _)
          | inr enough ↦ rw enough (
              holds (
                record {
                  sane = record {
                    bytes_fit = h.bytes_fit;
                    nodes_fit = h.nodes_fit;
                    files_fit = h.files_fit;
                    counted = h.counted;
                    short = h.short;
                    known = h.known;
                    open_files = h.open_files;
                  };
                  same = record {
                    root_is = refl;
                    bytes_is = refl;
                    files_is = refl;
                    nodes_is = refl;
                    work_is = omega arith;
                  };
                  chain_is = refl;
                },
                refl,
              ))
        ])

  pub enter_file-Entered :
      (origin : Option Origin) (path canonical : Bytes) (r : Resolver)
      → Sane parse_f64 loader r
      → get_path canonical r.done ≡ none
      → Ensures
          (λ (u, s). Entered parse_f64 loader canonical r s)
          (enter_file origin path canonical r)
  unfolding enter_file
  enter_file-Entered origin path canonical r h fresh =
      Ensures-if (is_on_chain canonical r.chain) (λ _. failed _)
        λ new.
          Ensures-if (ltb max_import_depth (length r.chain)) (λ _. failed _)
            λ room.
              Ensures-if (leb r.max_files r.files) (λ _. failed _)
                λ files. holds (record {
                  sane = record {
                    bytes_fit = h.bytes_fit;
                    nodes_fit = h.nodes_fit;
                    files_fit = ground arith;
                    counted = omega (arith, h.counted);
                    short = ground arith;
                    known = h.known;
                    open_files = opened canonical r h fresh;
                  };
                  same = record {
                    root_is = refl;
                    bytes_is = refl;
                    files_is = refl;
                    nodes_is = refl;
                    work_is = omega arith;
                  };
                  chain_is = refl;
                  new = new;
                  room = ground arith;
                })

  -- The end of `load`: the file takes its place among the finished ones.
  pub finish_file-Step :
      (canonical : Bytes) (document : Document) (depth : ℕ) (r₀ r : Resolver)
      → Sane parse_f64 loader r
      → Same r₀ r
      → r.chain ≡ canonical ∷ r₀.chain
      → is_on_chain canonical r₀.chain ≡ false
      → Known parse_f64 loader r.root canonical (record { document = document; depth = depth })
      → Ensures
          (λ (v, s).
            Step parse_f64 loader r₀ s × (v ≡ record { document = document; depth = depth }))
          (finish_file canonical document depth r)
  unfolding finish_file
  finish_file-Step canonical document depth r₀ r h same e new k =
      let v : Resolved = record { document = document; depth = depth } in
      let left : popped r.chain ≡ r₀.chain = ap popped e in
      let on : is_on_chain canonical r.chain ≡ true =
        subst (λ chain. is_on_chain canonical chain ≡ true) (sym e)
          (is_on_chain-head canonical r₀.chain) in
      let fresh = h.open_files canonical on in
      let inserted = insert_path-fresh canonical v r.done fresh in
      holds (
        record {
          sane = record {
            bytes_fit = h.bytes_fit;
            nodes_fit = h.nodes_fit;
            files_fit = h.files_fit;
            counted = omega (
              arith,
              h.counted,
              ap length e,
              ap length left,
              ap length inserted,
              length-append r.done ((canonical, v) ∷ []),
            );
            short = omega (arith, h.short, ap length e, ap length left);
            known =
                subst (AllKnown parse_f64 loader r.root) (sym inserted)
                  (AllKnown-append r.root canonical v r.done h.known k);
            open_files = λ q on_rest.
                let on₀ : is_on_chain q r₀.chain ≡ true =
                  subst (λ chain. is_on_chain q chain ≡ true) left on_rest in
                let on₁ : is_on_chain q r.chain ≡ true =
                  subst (λ chain. is_on_chain q chain ≡ true) (sym e)
                    (is_on_chain-tail q canonical r₀.chain on₀) in
                ap (get_path q) inserted
                ∙ get_path-append q canonical v r.done (h.open_files q on₁)
                    (off_chain canonical q r₀.chain new on₀);
          };
          same = Same-trans same (record {
            root_is = refl;
            bytes_is = refl;
            files_is = refl;
            nodes_is = refl;
            work_is = omega arith;
          });
          chain_is = left;
        },
        refl,
      )
