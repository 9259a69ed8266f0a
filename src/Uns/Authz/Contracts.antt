-- ===== src/Uns/Authz/Contracts.antt =====
-- plugins/uns/authz.go: `FilterContract` and the topics that the filter matches.
use colca.Prelude.{
  Text, codes, text_beq, split, List, [], ◌∷◌, true, false, ◌||◌, some, ok, ◌≡◌, refl, sym, subst,
  ◌∙◌, arith, Bool-cases, inl, inr, or-eq-true,
}
use colca.Uns.Topic.{Parsed, slash, parse}
use colca.Uns.Entry.{valid_root}
use colca.Uns.Authz.{filter_contract, filter_contract_of}
use colca.Uns.Authz.Matching.{
  Matches, Matches-next, Matches-same, parse-IsTopic, root-literal, literal_of,
}

head_no_hash :
    (root a : Text)
    → valid_root root ≡ true
    → (text_beq a root || text_beq a (codes "+")) ≡ true
    → text_beq a (codes "#") ≡ false
head_no_hash root a v h = elim (or-eq-true (text_beq a root) (text_beq a (codes "+")) h) [
  | inl e ↦ literal_of a root (codes "#") e (root-literal root v).0
  | inr e ↦ literal_of a (codes "+") (codes "#") e (unfold text_beq in refl)
]

named_parts :
    (root a b c x : Text) (r : List Text)
    → valid_root root ≡ true
    → filter_contract_of root (a ∷ b ∷ c ∷ r) ≡ some x
    → (text_beq a (codes "#") ≡ false)
      × (text_beq b (codes "#") ≡ false)
      × (text_beq c (codes "#") ≡ false)
      × (text_beq c (codes "+") ≡ false)
      × (c ≡ x)
unfolding filter_contract_of
named_parts root a b c x r v h = elim (Bool-cases (text_beq a root || text_beq a (codes "+"))) [
  | inl k ↦ let n = head_no_hash root a v k in ground arith
  | inr k ↦ absurd (cc (rw k at h))
]

filter_contract_of_sound :
    (root x : Text) (fs : List Text) (a b c d : Text) (ts : List Text)
    → valid_root root ≡ true
    → Matches fs (a ∷ b ∷ c ∷ d ∷ ts)
    → filter_contract_of root fs ≡ some x
    → c ≡ x
filter_contract_of_sound root x (fa ∷ fb ∷ fc ∷ fr) a b c d ts v m h =
    let (na, nb, nc, pc, e) = named_parts root fa fb fc x fr v h in
    let ma = (Matches-next fa a (fb ∷ fc ∷ fr) (b ∷ c ∷ d ∷ ts) na m).1 in
    let mb = (Matches-next fb b (fc ∷ fr) (c ∷ d ∷ ts) nb ma).1 in
    sym (Matches-same fc c fr (d ∷ ts) nc pc mb).0 ∙ e
filter_contract_of_sound root x [] a b c d ts v m h = absurd m
filter_contract_of_sound root x (fa ∷ []) a b c d ts v m h =
    absurd (unfold filter_contract_of in cc)
filter_contract_of_sound root x (fa ∷ fb ∷ []) a b c d ts v m h =
    absurd (unfold filter_contract_of in cc)

-- Where `FilterContract` finds a contract named in a filter, under a valid root, each record whose
-- topic the filter matches is of that contract.
pub filter_contract_sound :
    (root filter topic x : Text) (p : Parsed)
    → valid_root root ≡ true
    → parse topic ≡ ok p
    → Matches (split slash filter) (split slash topic)
    → filter_contract root filter ≡ some x
    → p.contract ≡ x
unfolding filter_contract
filter_contract_sound root filter topic x p v q m h =
    let t = parse-IsTopic topic p q in
    filter_contract_of_sound root x (split slash filter) p.prefix p.version p.contract p.node_id
      (t.e ∷ t.r) v (subst (Matches (split slash filter)) t.segments m) h
