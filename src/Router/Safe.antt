-- ===== src/Router/Safe.antt =====
-- applyModes never lets a raw source and a running mixer share a destination's speaker channels.
use go_discord_caller.Base.{
  nat_eq, nat_zero, bool_zero, list_zero, Map, lookup, get, All, Elem, Distinct, Elem-All,
  Distinct-key, ℕ, ◌≡◌, sym, subst, ◌∙◌, inl, inr, Bool, true, false, some, map,
}
use go_discord_caller.Router.{route_mode_zero, is_copy, Modes}
use go_discord_caller.Router.Settled.{NotCopy}
use go_discord_caller.Router.Slots.{SourceSlot, DestSlot, Router}
use go_discord_caller.Router.Apply.{pause_dest}
use go_discord_caller.Router.Path.{is_raw, writes_raw, OneWriter}
use go_discord_caller.Router.Pausing.{pause_dest-lowers, pause_dest-raises, pause_dest-rest}

-- A slot's handle is raw only if its recorded mode is copy, and only if the handle is there.
abbrev pub Coherent : SourceSlot → Type 0
Coherent s = is_raw s.installed ≡ true → (is_copy s.active_mode ≡ true) × (s.wired ≡ true)

-- What holds between any two mutations.
pub record Safe (ds : Map ℕ DestSlot) (r : Router) : Type 0 where
  pub one_writer : OneWriter r
  pub coherent : (i : ℕ) (s : SourceSlot) → lookup i r.sources ≡ some s → Coherent s
  pub same_dests : r.destinations ≡ ds

-- The decision of `computeRoutes` that applyModes carries out.
pub record Decided (modes : Modes) (dest_mix : Map ℕ Bool) (ds : Map ℕ DestSlot) : Type 0 where
  -- One destination for each channel.
  pub channels : Distinct (map (λ x. x.0) ds)
  pub ids : Distinct (map (λ x. x.0) modes)
  pub none_raw :
      (c : ℕ) (d : DestSlot)
      → Elem (c, d) ds
      → get c dest_mix ≡ true
      → All (NotCopy modes) d.source_ids
  -- Every source that feeds a destination has a mode.
  pub covered :
      (c : ℕ) (d : DestSlot) (i : ℕ)
      → Elem (c, d) ds
      → Elem i d.source_ids
      → Elem i (map (λ x. x.0) modes)

module _ {modes : Modes} {dest_mix : Map ℕ Bool} {ds : Map ℕ DestSlot}
    (dec : Decided modes dest_mix ds) (listeners : Map ℕ Bool) where
  pub pausing-Safe :
      (c : ℕ) (d : DestSlot) (r : Router)
      → Safe ds r
      → Safe ds (pause_dest dest_mix listeners true (c, d) r)
  pausing-Safe c d r s =
      let (src, dst) = pause_dest-rest dest_mix listeners true (c, d) r in
      record {
        one_writer = λ c' d' m mx p i n. rw src (
            s.one_writer c' d' (rw dst at m) mx (pause_dest-lowers dest_mix listeners c d r c' p).0
              i n);
        coherent = λ i x e. s.coherent i x (rw src at e);
        same_dests = dst ∙ s.same_dests;
      }

  pub resuming-Safe :
      (c : ℕ) (d : DestSlot) (r : Router)
      → ((i : ℕ)
          → Elem i d.source_ids
          → is_copy (get i modes) ≡ false
          → writes_raw (lookup i r.sources) ≡ false)
      → Elem (c, d) ds
      → Safe ds r
      → Safe ds (pause_dest dest_mix listeners false (c, d) r)
  resuming-Safe c d r applied m₀ s =
      let (src, dst) = pause_dest-rest dest_mix listeners false (c, d) r in
      record {
        one_writer = λ c' d' m mx p i n.
            rw src (elim (pause_dest-raises dest_mix listeners c d r c' p) [
              | inl was ↦ s.one_writer c' d' (rw dst at m) mx was i n
              | inr (same_c, on) ↦
                  let same : (c', d') ≡ (c, d) =
                    Distinct-key (λ x. x.0) ds dec.channels (rw (dst ∙ s.same_dests) at m) m₀
                      (sym same_c) in
                  let fed : Elem i d.source_ids = subst (λ x. Elem i x.1.source_ids) same n in
                  applied i fed (Elem-All (NotCopy modes) d.source_ids fed (dec.none_raw c d m₀ on))
            ]);
        coherent = λ i x e. s.coherent i x (rw src at e);
        same_dests = dst ∙ s.same_dests;
      }
