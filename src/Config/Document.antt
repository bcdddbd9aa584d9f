-- ===== src/Config/Document.antt =====
-- A configuration document as a list of top-level entries, the tokens that it is scanned to, and
-- the configuration that it asks for.
use ovpn_manager.Prelude.{
  ◌≡◌, refl, sym, ap, ◌∙◌, List, [], ◌∷◌, Option, some, Bytes, eqb, inl, inr, ◌⊎◌,
}
use ovpn_manager.Prelude.Int.{pos}
use ovpn_manager.Config.{
  Config, Section, outside, Token, key, value, scalar, block_mapping_start, block_end, stream_end,
  other, Parser, initial, default_config, section_of, assign, step, enter, mapping_start, scan,
  check_required, tokens, parse_config,
}
use ovpn_manager.Config.Steps.{
  after_scalar, after_scalar-Assigned, scan_pair, step_end-Closed, enter_key-Opened, scan_key,
  scan_end,
}

-- A top-level key with a scalar, or with a block mapping of scalars.
pub data Item : Type 0 where
  entry : Bytes → Bytes → Item
  mapping : Bytes → List (Bytes × Bytes) → Item

abbrev pub pairs_tokens : List (Bytes × Bytes) → List Token → List Token
pairs_tokens [] rest = rest
pairs_tokens ((k, v) ∷ ps) rest = key ∷ scalar k ∷ value ∷ scalar v ∷ pairs_tokens ps rest

abbrev pub items_tokens : List Item → List Token → List Token
items_tokens [] rest = rest
items_tokens (entry k v ∷ is) rest = key ∷ scalar k ∷ value ∷ scalar v ∷ items_tokens is rest
items_tokens (mapping k ps ∷ is) rest =
    key
    ∷ scalar k
    ∷ value
    ∷ block_mapping_start
    ∷ pairs_tokens ps (block_end ∷ items_tokens is rest)

-- `other` is the token that starts the stream.
abbrev pub document_tokens : List Item → List Token
document_tokens is = other ∷ block_mapping_start ∷ items_tokens is (block_end ∷ stream_end ∷ [])

abbrev pub assign_pairs : Section → Config → List (Bytes × Bytes) → Config
assign_pairs s c [] = c
assign_pairs s c ((k, v) ∷ ps) = assign_pairs s (assign s c k v) ps

-- What a document asks for. A mapping under a name that is no section has its entries read as
-- top-level ones.
abbrev pub assign_items : Config → List Item → Config
assign_items c [] = c
assign_items c (entry k v ∷ is) = assign_items (assign outside c k v) is
assign_items c (mapping k ps ∷ is) = assign_items (assign_pairs (section_of k) c ps) is

-- A whole block mapping, from behind its start token to behind its end token.
scan_pairs :
    (s : Section) (ps : List (Bytes × Bytes)) (p : Parser) (rest : List Token) (r : Option Config)
    → p.in_section ≡ s
    → (s ≡ outside) ⊎ (p.depth ≡ p.target_depth)
    → ((q : Parser)
        → q.in_section ≡ outside
        → q.config ≡ assign_pairs s p.config ps
        → scan q rest ≡ r)
    → scan p (pairs_tokens ps (block_end ∷ rest)) ≡ r
scan_pairs s [] p rest r e d then_rest =
    let c = step_end-Closed s p e d in scan_end p rest ∙ then_rest _ c.is_out c.kept
scan_pairs s ((k, v) ∷ ps) p rest r e d then_rest =
    let a = after_scalar-Assigned s p k v e in
    scan_pair s p k v _ e
    ∙ scan_pairs s ps (after_scalar s p k v) rest r a.stays
        (elim d [ inl o ↦ inl o | inr t ↦ inr (a.same_depth ∙ t ∙ sym a.same_target) ])
        (λ q out c. then_rest q out (c ∙ ap (λ x. assign_pairs s x ps) a.config_is))

-- `rest` behind a mapping's name and start token is read inside the section that it names.
scan_mapping :
    (k : Bytes) (ps : List (Bytes × Bytes)) (p : Parser) (rest : List Token) (r : Option Config)
    → p.in_section ≡ outside
    → ((q : Parser)
        → q.in_section ≡ outside
        → q.config ≡ assign_pairs (section_of k) p.config ps
        → scan q rest ≡ r)
    → scan p (key ∷ scalar k ∷ value ∷ block_mapping_start ∷ pairs_tokens ps (block_end ∷ rest)) ≡ r
scan_mapping k ps p rest r e then_rest =
    let o = enter_key-Opened p k e in
    scan_key p k _ e
    ∙ scan_pairs (section_of k) ps _ rest r o.is_in o.at_target
        (λ q out c. then_rest q out (c ∙ ap (λ x. assign_pairs (section_of k) x ps) o.same))

scan_items :
    (is : List Item) (p : Parser)
    → p.in_section ≡ outside
    → scan p (items_tokens is (block_end ∷ stream_end ∷ [])) ≡ some (assign_items p.config is)
scan_items [] p e =
    let c = step_end-Closed outside p e (inl refl) in scan_end p _ ∙ unfold scan in ap some c.kept
scan_items (entry k v ∷ is) p e =
    let a = after_scalar-Assigned outside p k v e in
    scan_pair outside p k v _ e
    ∙ scan_items is _ a.stays
    ∙ ap (λ x. some (assign_items x is)) a.config_is
scan_items (mapping k ps ∷ is) p e =
    scan_mapping k ps p _ _ e
      (λ q out c. scan_items is q out ∙ ap (λ x. some (assign_items x is)) c)

scan_document :
    (is : List Item) → scan initial (document_tokens is) ≡ some (assign_items default_config is)
unfolding scan step mapping_start enter section_of eqb
scan_document is = scan_items is (record initial { depth = pos 1 }) refl

pub parse_config-assign_items :
    (is : List Item)
    → parse_config (tokens (document_tokens is)) ≡ check_required (assign_items default_config is)
unfolding parse_config
parse_config-assign_items is = rw (scan_document is, parse_config)
