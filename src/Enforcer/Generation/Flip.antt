-- ===== src/Enforcer/Generation/Flip.antt =====
-- The flip is atomic: the rules in force are the old ones until it, and the new ones after it.
use wire_mesh.External.LpmTrie.{swap32}
use wire_mesh.Enforcer.RuleBits.{max_rules}
use wire_mesh.Common.{
  In-append_left, ℕ, ◌≤◌, ◌≡◌, refl, sym, ap, ◌∙◌, subst, ◌≢◌, inl, inr, true, Option, none, some,
  List, [], ◌∷◌, ◌++◌, arith, ◌==◌, ==_iff, Option-cases, length, In, here, there,
}
use wire_mesh.Enforcer.Maps.{
  Maps, Write, write, update, set_src, set_dst, set_rules, set_meta, RuleMeta, zero_meta,
}
use wire_mesh.Enforcer.Scan.{deciding_rule, swap16}
use wire_mesh.Enforcer.Tables.{
  build_rules, build_lpm_entries, build_trie, fill_rules, install_generation, generation_writes,
}
use wire_mesh.Enforcer.Flatten.{FlatRule, src, dst}
use wire_mesh.Enforcer.Verdict.{first_match}
use wire_mesh.Enforcer.Verdict.Covering.{IsIndexed}
use wire_mesh.Enforcer.Verdict.Scanning.{reported}
use wire_mesh.Enforcer.Verdict.Generation.{Holds, deciding_rule-eq}
use wire_mesh.Enforcer.Generation.{
  flip_after, RuleBits, LpmTrie, Ipnet, GenerationState, fold_and_reset_counters, apply_writes,
  target_of, install, flip, apply_generation,
}

-- a write to the slot `t` of the outer maps
pub data Fills {Trie : Type 0} (t : ℕ) : Write Trie → Type 0 where
  fills_src : (u : Trie) → Fills t (set_src t u)
  fills_dst : (u : Trie) → Fills t (set_dst t u)
  fills_rules : (r : ℕ → RuleMeta) → Fills t (set_rules t r)
  fills_meta : (n : ℕ) → Fills t (set_meta t n)

module _ {Trie : Type 0} where
  -- the two states have the same generation in force
  abbrev Agrees : Maps Trie → Maps Trie → Type 0
  Agrees m n =
      (n.active ≡ m.active)
      × (n.gen_src m.active ≡ m.gen_src m.active)
      × (n.gen_dst m.active ≡ m.gen_dst m.active)
      × (n.gen_rules m.active ≡ m.gen_rules m.active)
      × (n.gen_meta m.active ≡ m.gen_meta m.active)

  write-Agrees :
      (m : Maps Trie) (t : ℕ) {w : Write Trie} → Fills t w → t ≢ m.active → Agrees m (write m w)
  unfolding write update
  write-Agrees m t (fills_src u) ne = ground arith
  write-Agrees m t (fills_dst u) ne = ground arith
  write-Agrees m t (fills_rules r) ne = ground arith
  write-Agrees m t (fills_meta n) ne = ground arith

module _ (lpm : LpmTrie RuleBits) where
  open lpm use {Trie}

  deciding_rule-Agrees :
      (m n : Maps Trie) (s d proto dport : ℕ)
      → Agrees m n
      → deciding_rule lpm n s d proto dport ≡ deciding_rule lpm m s d proto dport
  unfolding deciding_rule
  deciding_rule-Agrees m n s d proto dport (a, es, ed, er, em) = rw (a, es, ed, er, em) refl

  -- While another slot is filled, in whole or in part, every packet is decided as before.
  pub apply_writes-Fills :
      (m : Maps Trie) (t : ℕ) (ws : List (Write Trie)) (s d proto dport : ℕ)
      → t ≢ m.active
      → ((w : Write Trie) → In w ws → Fills t w)
      → (deciding_rule lpm (apply_writes m ws) s d proto dport
          ≡ deciding_rule lpm m s d proto dport)
        × ((apply_writes m ws).active ≡ m.active)
  unfolding apply_writes
  apply_writes-Fills m t [] s d proto dport ne all' = (refl, refl)
  apply_writes-Fills m t (w ∷ ws) s d proto dport ne all' =
      let same = write-Agrees m t (all' w (here refl)) ne in
      let ih =
        apply_writes-Fills (write m w) t ws s d proto dport (λ e. ne (e ∙ same.0))
          (λ v n. all' v (there n)) in
      (ih.0 ∙ deciding_rule-Agrees m (write m w) s d proto dport same, ih.1 ∙ same.0)

module _ (ip : Ipnet) (lpm : LpmTrie RuleBits) where
  open ip use {Net}
  open lpm use {Trie}

  -- the tables that an installation built, and the writes that it made of them
  record Installed (t : ℕ) (flat : List (FlatRule Net)) (ws : List (Write Trie)) : Type 0 where
    src_trie : Trie
    dst_trie : Trie
    arr : ℕ → RuleMeta
    src_built : build_trie ip lpm (build_lpm_entries ip flat src) ≡ some src_trie
    dst_built : build_trie ip lpm (build_lpm_entries ip flat dst) ≡ some dst_trie
    filled : fill_rules 0 (build_rules flat).0 (λ _. zero_meta) ≡ some arr
    writes :
        ws
        ≡ set_src t src_trie
          ∷ set_dst t dst_trie
          ∷ set_rules t arr
          ∷ set_meta t (length (build_rules flat).0)
          ∷ []

  some-injective {ℓ} : {A : Type ℓ} {a b : A} → ◌≡◌ {A = Option A} (some a) (some b) → a ≡ b
  some-injective e = cc

  none-ne-some {ℓ} : {A : Type ℓ} {a : A} → ◌≡◌ {A = Option A} none (some a) → ⊥
  none-ne-some e = cc

  generation_writes-Installed :
      (t : ℕ) (flat : List (FlatRule Net)) (u v : Option Trie) (a : Option (ℕ → RuleMeta))
      {ws : List (Write Trie)}
      → build_trie ip lpm (build_lpm_entries ip flat src) ≡ u
      → build_trie ip lpm (build_lpm_entries ip flat dst) ≡ v
      → fill_rules 0 (build_rules flat).0 (λ _. zero_meta) ≡ a
      → generation_writes ip lpm t (length (build_rules flat).0) u v a ≡ some ws
      → Installed t flat ws
  unfolding generation_writes
  generation_writes-Installed t flat none v a eu ev ea h = cc
  generation_writes-Installed t flat (some u) none a eu ev ea h = cc
  generation_writes-Installed t flat (some u) (some v) none eu ev ea h = cc
  generation_writes-Installed t flat (some u) (some v) (some arr) eu ev ea h = record {
    src_trie = u;
    dst_trie = v;
    arr = arr;
    src_built = eu;
    dst_built = ev;
    filled = ea;
    writes = sym (some-injective h);
  }

  install-Installed :
      (maps : Maps Trie) (flat : List (FlatRule Net)) {ws : List (Write Trie)}
      → install ip lpm maps flat ≡ some ws
      → Installed (target_of ip lpm maps) flat ws
  unfolding install install_generation
  install-Installed maps flat h =
      generation_writes-Installed (target_of ip lpm maps) flat
        (build_trie ip lpm (build_lpm_entries ip flat src))
        (build_trie ip lpm (build_lpm_entries ip flat dst))
        (fill_rules 0 (build_rules flat).0 (λ _. zero_meta)) refl refl refl h

  abbrev four : ℕ → Trie → Trie → (ℕ → RuleMeta) → ℕ → List (Write Trie)
  four t u v a n = set_src t u ∷ set_dst t v ∷ set_rules t a ∷ set_meta t n ∷ []

  four-Fills :
      (t : ℕ) (u v : Trie) (a : ℕ → RuleMeta) (n : ℕ) (w : Write Trie)
      → In w (four t u v a n)
      → Fills t w
  four-Fills t u v a n w (here e) = subst (Fills t) e (fills_src u)
  four-Fills t u v a n w (there (here e)) = subst (Fills t) e (fills_dst v)
  four-Fills t u v a n w (there (there (here e))) = subst (Fills t) e (fills_rules a)
  four-Fills t u v a n w (there (there (there (here e)))) = subst (Fills t) e (fills_meta n)
  four-Fills t u v a n w (there (there (there (there m)))) = elim m [ ]

  -- Where the active slot is 0 or 1, after any part of the writes of an installation every packet
  -- is decided by the generation that was active before it.
  pub install-atomic :
      (maps : Maps Trie) (flat : List (FlatRule Net)) (done rest : List (Write Trie))
      (s d proto dport : ℕ)
      → maps.active ≤ 1
      → install ip lpm maps flat ≡ some (done ++ rest)
      → deciding_rule lpm (apply_writes maps done) s d proto dport
        ≡ deciding_rule lpm maps s d proto dport
  install-atomic maps flat done rest s d proto dport two h =
      let i = install-Installed maps flat h in
      let other : target_of ip lpm maps ≢ maps.active = omega arith in
      (apply_writes-Fills lpm maps (target_of ip lpm maps) done s d proto dport other (λ w m.
        four-Fills (target_of ip lpm maps) i.src_trie i.dst_trie i.arr (length (build_rules flat).0)
          w (subst (In w) i.writes (In-append_left rest m)))).0

  -- the tables of the flat rules, in the slot that their four writes filled
  written-Holds :
      (m : Maps Trie) (t : ℕ) (flat : List (FlatRule Net)) {ws : List (Write Trie)}
      → IsIndexed 0 flat
      → length flat ≤ max_rules
      → Installed t flat ws
      → Holds ip lpm (apply_writes m ws) t flat
  unfolding apply_writes write update
  written-Holds m t flat idx fits i =
      let self : (t == t) ≡ true = (==_iff t t).1 refl in
      let four' = four t i.src_trie i.dst_trie i.arr (length (build_rules flat).0) in
      subst (λ ws. Holds ip lpm (apply_writes m ws) t flat) (sym i.writes)
        (record {
          indexed = idx;
          fits = fits;
          src_trie = i.src_trie;
          dst_trie = i.dst_trie;
          arr = i.arr;
          src_built = i.src_built;
          dst_built = i.dst_built;
          filled = i.filled;
          at_src = rw self refl;
          at_dst = rw self refl;
          at_rules = rw self refl;
          at_meta = rw self refl;
        })

  -- Folding the counters and flipping leave the tables alone.
  flip-Holds :
      (maps : Maps Trie) (gen : GenerationState) (flat : List (FlatRule Net)) (now : ℕ)
      (ws : List (Write Trie))
      → Holds ip lpm (apply_writes maps ws) (target_of ip lpm maps) flat
      → Holds ip lpm (flip ip lpm maps gen flat now ws).0 (target_of ip lpm maps) flat
        × ((flip ip lpm maps gen flat now ws).0.active ≡ target_of ip lpm maps)
  unfolding flip fold_and_reset_counters
  flip-Holds maps gen flat now ws h = (
    record {
      indexed = h.indexed;
      fits = h.fits;
      src_trie = h.src_trie;
      dst_trie = h.dst_trie;
      arr = h.arr;
      src_built = h.src_built;
      dst_built = h.dst_built;
      filled = h.filled;
      at_src = ground (arith, h.at_src);
      at_dst = ground (arith, h.at_dst);
      at_rules = ground (arith, h.at_rules);
      at_meta = ground (arith, h.at_meta);
    },
    refl,
  )

  pub install-Fills :
      (maps : Maps Trie) (flat : List (FlatRule Net)) {ws : List (Write Trie)}
      → install ip lpm maps flat ≡ some ws
      → (w : Write Trie) → In w ws
      → Fills (target_of ip lpm maps) w
  install-Fills maps flat h w m =
      let i = install-Installed maps flat h in
      four-Fills (target_of ip lpm maps) i.src_trie i.dst_trie i.arr (length (build_rules flat).0) w
        (subst (In w) i.writes m)

  -- What an apply that succeeds went through.
  pub apply_generation-eq-some :
      (maps : Maps Trie) (gen : GenerationState) (flat : List (FlatRule Net)) (now : ℕ)
      {out : Maps Trie × GenerationState}
      → apply_generation ip lpm maps gen flat now ≡ some out
      → (ws : List (Write Trie)) × (install ip lpm maps flat ≡ some ws)
        × (flip ip lpm maps gen flat now ws ≡ out)
  unfolding apply_generation
  apply_generation-eq-some maps gen flat now h = elim (Option-cases (install ip lpm maps flat)) [
    | inl e ↦ absurd (none-ne-some (sym (ap (flip_after ip lpm maps gen flat now) e) ∙ h))
    | inr (ws, e) ↦ (ws, e, some-injective (sym (ap (flip_after ip lpm maps gen flat now) e) ∙ h))
  ]

  -- After an apply of indexed flat rules, at most 256, that succeeds, every packet is decided by
  -- the first of them that matches it.
  pub apply_generation-eq :
      (maps : Maps Trie) (gen : GenerationState) (flat : List (FlatRule Net))
      (now s d proto dport : ℕ) {out : Maps Trie × GenerationState}
      → IsIndexed 0 flat
      → length flat ≤ max_rules
      → apply_generation ip lpm maps gen flat now ≡ some out
      → deciding_rule lpm out.0 s d proto dport
        ≡ reported (first_match ip flat (swap32 s) (swap32 d) proto (swap16 dport))
  apply_generation-eq maps gen flat now s d proto dport idx fits h =
      let (ws, e, is) = apply_generation-eq-some maps gen flat now h in
      let i = install-Installed maps flat e in
      let held =
        flip-Holds maps gen flat now ws
          (written-Holds maps (target_of ip lpm maps) flat idx fits i) in
      subst
        (λ (o : Maps Trie × GenerationState).
          deciding_rule lpm o.0 s d proto dport
          ≡ reported (first_match ip flat (swap32 s) (swap32 d) proto (swap16 dport)))
        is
        (deciding_rule-eq ip lpm flat (flip ip lpm maps gen flat now ws).0 (target_of ip lpm maps)
          held.0 s d proto dport held.1)
