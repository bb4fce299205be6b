-- ===== src/Client/Gateways/Rule.antt =====
-- crates/client/src/gateways.rs: proofs about rule A1.
use tokumai.Base.{
  ℕ, ◌≡◌, refl, sym, ap, ◌∙◌, ◌⊎◌, inl, inr, ◌≢◌, Bool, true, false, not, ◌&&◌, Option, none, some,
  List, [], ◌∷◌, arith, Bool-cases,
}
use mathlib.Core.Path.{subst}
use mathlib.Core.List.{Memᴰ}
use tokumai.Base.Result.{ok, err}
use tokumai.Base.Bytes.{Bytes}
use tokumai.Base.Text.{equal_bytes, equal_bytes→≡, equal_bytes_refl}
use tokumai.Client.Gateways.{
  Gateway, Directory, EntryChoice, random, chosen, none_suitable, operator_gateways, gateway_of,
  has_number, has_id, in_family, allowed, is_gateway, id_or_error, in_directory, is_suitable,
  filtered, candidates, pick,
}

-- A gateway that rule A1 permits: none of the operator's listed ones, not the enclave's own, and no
-- gateway of the directory with this identity is a node of the operator's family.
pub record IsOutside (d : Directory) (enclave_address id : Bytes) : Type 0 where
  pub known : (g : Gateway) × Memᴰ g d.gateways × (g.id ≡ id)
  pub not_listed : ¬ Memᴰ id operator_gateways
  pub not_own : gateway_of enclave_address ≢ some id
  pub not_family : (g : Gateway) → Memᴰ g d.gateways → g.id ≡ id → ¬ Memᴰ g.node_id d.operator_nodes

Mem-has_id : (id : Bytes) (xs : List Bytes) → Memᴰ id xs → has_id id xs ≡ true
unfolding has_id
Mem-has_id id [] m = elim m [ ]
Mem-has_id id (x ∷ xs) (Memᴰ.head e) = rw e (ground (arith, equal_bytes_refl x))
Mem-has_id id (x ∷ xs) (Memᴰ.tail m) = ground (arith, Mem-has_id id xs m)

Mem-has_number : (n : ℕ) (ns : List ℕ) → Memᴰ n ns → has_number n ns ≡ true
unfolding has_number
Mem-has_number n [] i = elim i [ ]
Mem-has_number n (m ∷ ms) (Memᴰ.head e) = ground arith
Mem-has_number n (m ∷ ms) (Memᴰ.tail i) = ground (arith, Mem-has_number n ms i)

Mem-in_family :
    (id : Bytes) (nodes : List ℕ) (gs : List Gateway) (g : Gateway)
    → Memᴰ g gs
    → g.id ≡ id
    → Memᴰ g.node_id nodes
    → in_family id nodes gs ≡ true
unfolding in_family
Mem-in_family id nodes [] g m same ours = elim m [ ]
Mem-in_family id nodes (x ∷ xs) g (Memᴰ.head e) same ours =
    let i : x.id ≡ id = ap (λ (y : Gateway). y.id) (sym e) ∙ same in
    let n : has_number x.node_id nodes ≡ true =
      subst (λ (y : Gateway). has_number y.node_id nodes ≡ true) e
        (Mem-has_number g.node_id nodes ours) in
    ground (arith, i, n, equal_bytes_refl id)
Mem-in_family id nodes (x ∷ xs) g (Memᴰ.tail m) same ours =
    ground (arith, Mem-in_family id nodes xs g m same ours)

in_directory-Mem :
    (id : Bytes) (gs : List Gateway)
    → in_directory id gs ≡ true
    → (g : Gateway) × Memᴰ g gs × (g.id ≡ id)
unfolding in_directory
in_directory-Mem id [] e = cc
in_directory-Mem id (g ∷ gs) e = elim (Bool-cases (equal_bytes g.id id)) [
  | inl same ↦ (g, Memᴰ.head refl, equal_bytes→≡ g.id id same)
  | inr other ↦ let (h, m, same) = in_directory-Mem id gs (ground arith) in (h, Memᴰ.tail m, same)
]

-- What the three parts of `allowed` say.
allowed-parts :
    (d : Directory) (id enclave_address : Bytes)
    → allowed d id enclave_address ≡ true
    → (in_family id d.operator_nodes d.gateways ≡ false)
      × (has_id id operator_gateways ≡ false)
      × (is_gateway (gateway_of enclave_address) id ≡ false)
unfolding allowed
allowed-parts d id enclave_address e = (ground arith, ground arith, ground arith)

allowed-IsOutside :
    (d : Directory) (id enclave_address : Bytes)
    → ((g : Gateway) × Memᴰ g d.gateways × (g.id ≡ id))
    → allowed d id enclave_address ≡ true
    → IsOutside d enclave_address id
allowed-IsOutside d id enclave_address known e =
    let (family, listed, own) = allowed-parts d id enclave_address e in
    record {
      known = known;
      not_listed = λ m. clash (Mem-has_id id operator_gateways m) listed;
      not_own = λ same. clash (ap (λ g. is_gateway g id) same ∙ equal_bytes_refl id) own;
      not_family = λ g m same ours.
          clash (Mem-in_family id d.operator_nodes d.gateways g m same ours) family;
    }
  where
    clash : {b : Bool} → b ≡ true → b ≡ false → ⊥
    clash yes_it not_it = cc

Mem-cases : (g x : Gateway) (ys : List Gateway) → Memᴰ g (x ∷ ys) → (g ≡ x) ⊎ Memᴰ g ys
Mem-cases g x ys (Memᴰ.head e) = inl e
Mem-cases g x ys (Memᴰ.tail m) = inr m

module _ (is_address : Bytes → Bool) where
  is_suitable-allowed :
      (d : Directory) (enclave_address : Bytes) (g : Gateway)
      → is_suitable is_address d enclave_address g ≡ true
      → allowed d g.id enclave_address ≡ true
  unfolding is_suitable
  is_suitable-allowed d enclave_address g e = ground arith

  filtered-Mem :
      (d : Directory) (enclave_address : Bytes) (seen : List Bytes) (gs : List Gateway)
      (g : Gateway)
      → Memᴰ g (filtered is_address d enclave_address seen gs)
      → Memᴰ g gs × (allowed d g.id enclave_address ≡ true)
  unfolding filtered
  filtered-Mem d enclave_address seen [] g m = elim m [ ]
  filtered-Mem d enclave_address seen (x ∷ xs) g m =
      elim (Bool-cases (is_suitable is_address d enclave_address x && not (has_id x.id seen))) [
        | inl taken ↦
            let suits : is_suitable is_address d enclave_address x ≡ true = ground arith in
            let fine = is_suitable-allowed d enclave_address x suits in
            elim (Mem-cases g x _ (rw taken at m)) [
              | inl e ↦ (
                Memᴰ.head e,
                subst (λ (y : Gateway). allowed d y.id enclave_address ≡ true) (sym e) fine,
              )
              | inr m' ↦
                  let (i, a) = filtered-Mem d enclave_address (x.id ∷ seen) xs g m' in
                  (Memᴰ.tail i, a)
            ]
        | inr skipped ↦
            let (i, a) = filtered-Mem d enclave_address seen xs g (rw skipped at m) in
            (Memᴰ.tail i, a)
      ]

  random-IsOutside :
      (choose : List Gateway → Option Gateway) (d : Directory) (enclave_address id : Bytes)
      → ((gs : List Gateway) (g : Gateway) → choose gs ≡ some g → Memᴰ g gs)
      → (r : Option Gateway) → choose (candidates is_address d enclave_address) ≡ r
      → id_or_error is_address r ≡ ok id
      → IsOutside d enclave_address id
  unfolding candidates
  random-IsOutside choose d enclave_address id law none was e = absurd (none_chosen e)
    where
      none_chosen : err none_suitable ≡ ok id → ⊥
      none_chosen x = cc
  random-IsOutside choose d enclave_address id law (some g) was e =
      let (m, fine) = filtered-Mem d enclave_address [] d.gateways g (law _ g was) in
      let same : g.id ≡ id = cc in
      allowed-IsOutside d id enclave_address (g, m, same)
        (subst (λ x. allowed d x enclave_address ≡ true) same fine)

  -- Where the random choice takes one of the candidates, whatever `pick` gives, at random or as
  -- chosen, is a gateway of the directory, is not one of the operator's listed gateways, not the
  -- gateway of the enclave's address, and no gateway of the directory with that identity is a node
  -- of the operator's family.
  pub pick-IsOutside :
      (choose : List Gateway → Option Gateway) (d : Directory) (choice : EntryChoice)
      (enclave_address id : Bytes)
      → ((gs : List Gateway) (g : Gateway) → choose gs ≡ some g → Memᴰ g gs)
      → pick is_address choose d choice enclave_address ≡ ok id
      → IsOutside d enclave_address id
  unfolding pick
  pick-IsOutside choose d random enclave_address id law e =
      random-IsOutside choose d enclave_address id law
        (choose (candidates is_address d enclave_address)) refl e
  pick-IsOutside choose d (chosen x) enclave_address id law e =
      let listed : in_directory x d.gateways ≡ true = ground arith in
      let fine : allowed d x enclave_address ≡ true = ground arith in
      let same : x ≡ id = ground arith in
      let (g, m, i) = in_directory-Mem x d.gateways listed in
      rw same at (allowed-IsOutside d x enclave_address (g, m, i) fine)
