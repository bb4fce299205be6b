-- ===== src/Client/Gateways.antt =====
-- crates/client/src/gateways.rs: the choice of the app's entry gateway. What an answer of the
-- directory holds under the names that the code asks for is read by the JSON library; `Described` has
-- what it finds. Whether a host is a bare address, and the random choice, are parameters.
pub mod Rule
use tokumai.Base.{
  ℕ, Bool, true, false, not, ◌&&◌, ◌||◌, Option, none, some, List, [], ◌∷◌, ◌++◌, ◌==◌,
  if◌then◌else◌,
}
use tokumai.Base.Result.{Result, ok, err, ◌>>=◌, ok_or}
use tokumai.Base.Bytes.{Bytes, codes}
use tokumai.Base.Text.{equal_bytes, trim, rsplit_once}

abbrev pub operator_family : ℕ
operator_family = 19

pub operator_family_owner : Bytes
operator_family_owner = codes "n1suh7h6qx5wja25rutmhelf6a9eey5jnclhu0xc"

unfoldable pub operator_gateways : List Bytes
operator_gateways =
    codes "98FmUvDdQYEeV1ioi5NpFK7DoeHphVECndaG7fkRUsaF"
    ∷ codes "FmbUngD26tUGvJN8QqL78iK96bZYV2bWkjWZU7fDwBN1"
    ∷ codes "2JAVMSBKVvV5DAw8fsdsUjtaaTcwjzPvm4jMzaLGVzJJ"
    ∷ codes "89emNaGyaPFKzwLhVeh6wa75umdKfyQRBTa6ZPbUUPv2"
    ∷ codes "7ntzmDZRvG4a1pnDBU4Bg1RiAmLwmqXV5sZGNw68Ce14"
    ∷ codes "4mDXCAFNbHxhvayffcgvpRUTwjxTDy9AFZ3neQjNb8po"
    ∷ codes "4CmEWNXVKVAaY7Y5848fgmBTxwNTvkYwgnVitksPSnWY"
    ∷ codes "C3LSzGfG1gxhCShdijUgYdxo1BUGcUX1yP9YTkaQWwhp"
    ∷ codes "38zcSsvjXsAX7C28ko2H3Lt55X4TYxfZYkPADxKXZHUj"
    ∷ codes "6sL9w3iRYaf599rQ5QzGfecG8yoH9zci1BsbMqR6uyQP"
    ∷ codes "Hb8A6xoAKazBRWTGZ7eaCDZdR1eciaKWKrNqmydn4Bbw"
    ∷ codes "8h489z12rHrbXDZ25H7fEcbeSFusdQ8xD4jkntWyGEqr"
    ∷ codes "3JcdMZAHGrp3QbGh78SKQHuq1Bfq6x6yzCgvi5pqBniZ"
    ∷ codes "AcN3TJBpfHEtUo3qhrf1yELTeTgZfCFJt1xnyo4jnPwW"
    ∷ codes "2zHiExNRKiCXVKS35SNKtK4apGfZELMpA1jJ2gVevJoz"
    ∷ codes "EQBb3hW12n1XKM44peDfHLuT8XHPjZZdAFfMd5jF3XEa"
    ∷ codes "5txfqzqVFKACYzsC3cezvKKr1F4toN73wcq1hd365aJ"
    ∷ codes "YEFrKYaP1eAgs5xe1LfTiYmWALsWnAx44TfLscQoMkU"
    ∷ codes "FE6qX4c57NqjCnRtTcESkdC3oEUfZbv9Z3ATTHKKnA3b"
    ∷ codes "CWkVgyxmhjZgjw5azYAoqNzqaGCQEWhhQf5bfiiDyede"
    ∷ codes "Ht23soQt6NQXFNVGv2SHtb161XScgxrDgn7AF9ofET9L"
    ∷ codes "6KZ96sPW6BBcgmghYb7c7BtCXgAEr1nmwnJzzRsszyhe"
    ∷ codes "64LaDQefP7dbC8F37HhCnXGP2KstcfqM3hmPiw1KwezA"
    ∷ []

pub data EntryChoice : Type 0 where
  random : EntryChoice
  chosen : (id : Bytes) → EntryChoice

pub record Gateway : Type 0 where
  pub node_id : ℕ
  pub id : Bytes
  pub host : Bytes
  pub country : Bytes

-- One item of a directory answer.
pub record Described : Type 0 where
  pub is_entry : Option Bool
  pub node_id : Option ℕ
  pub key : Option Bytes
  pub hostname : Option Bytes
  pub location : Option Bytes

abbrev or_nothing : Option Bytes → Bytes
or_nothing none = []
or_nothing (some b) = b

abbrev named : Option ℕ → Option Bytes → Described → Option Gateway
named (some n) (some id) d =
    some (record {
      node_id = n;
      id = id;
      host = or_nothing d.hostname;
      country = or_nothing d.location;
    })
named _ _ d = none

abbrev is_true : Option Bool → Bool
is_true none = false
is_true (some b) = b

unfoldable pub gateway_in : Described → Option Gateway
gateway_in d = if is_true d.is_entry then named d.node_id d.key d else none

abbrev and_gateway : Option Gateway → List Gateway → List Gateway
and_gateway none gs = gs
and_gateway (some g) gs = g ∷ gs

-- `filter_map`; an answer without items is the empty list.
unfoldable pub parse_directory : List Described → List Gateway
unfolding gateway_in
parse_directory [] = []
parse_directory (d ∷ ds) = and_gateway (gateway_in d) (parse_directory ds)

pub data ConnectError : Type 0 where
  no_family not_ours empty_family not_in_directory refused none_suitable : ConnectError

-- The family in an answer, with the node ids that its members have.
pub record Family : Type 0 where
  pub id : Option ℕ
  pub owner : Option Bytes
  pub members : List (Option ℕ)

unfoldable pub node_ids : List (Option ℕ) → List ℕ
node_ids [] = []
node_ids (none ∷ ms) = node_ids ms
node_ids (some n ∷ ms) = n ∷ node_ids ms

abbrev owned : Option ℕ → Option Bytes → Bool
owned (some n) (some owner) = (n == operator_family) && equal_bytes owner operator_family_owner
owned _ _ = false

unfoldable pub members_or_error : List ℕ → Result ConnectError (List ℕ)
members_or_error [] = err empty_family
members_or_error (n ∷ ns) = ok (n ∷ ns)

unfoldable pub parse_family : Option Family → Result ConnectError (List ℕ)
unfolding node_ids members_or_error
parse_family none = err no_family
parse_family (some f) =
    if owned f.id f.owner then members_or_error (node_ids f.members) else err not_ours

pub record Directory : Type 0 where
  pub gateways : List Gateway
  pub operator_nodes : List ℕ

-- The two answers of `fetch`.
unfoldable pub fetch : List Described → Option Family → Result ConnectError Directory
unfolding parse_directory parse_family
fetch items family = do
  nodes ← parse_family family
  ok (record { gateways = parse_directory items; operator_nodes = nodes })

unfoldable pub gateway_of : Bytes → Option Bytes
gateway_of address = elim (rsplit_once (λ c. c == 64) (trim address)) [
  | none ↦ none
  | some (before, g) ↦ some g
]

unfoldable pub has_number : ℕ → List ℕ → Bool
has_number n [] = false
has_number n (m ∷ ms) = m == n || has_number n ms

unfoldable pub has_id : Bytes → List Bytes → Bool
has_id id [] = false
has_id id (x ∷ xs) = equal_bytes x id || has_id id xs

-- Whether a gateway of the directory with this identity is a node of the operator's family.
unfoldable pub in_family : Bytes → List ℕ → List Gateway → Bool
unfolding has_number
in_family id nodes [] = false
in_family id nodes (g ∷ gs) =
    (equal_bytes g.id id && has_number g.node_id nodes) || in_family id nodes gs

abbrev pub is_gateway : Option Bytes → Bytes → Bool
is_gateway none id = false
is_gateway (some g) id = equal_bytes g id

unfoldable pub allowed : Directory → Bytes → Bytes → Bool
unfolding in_family has_id gateway_of
allowed d id enclave_address =
    not (in_family id d.operator_nodes d.gateways)
    && (not (has_id id operator_gateways) && not (is_gateway (gateway_of enclave_address) id))

abbrev is_none : Bytes → Bool
is_none [] = true
is_none (b ∷ bs) = false

unfoldable pub in_directory : Bytes → List Gateway → Bool
in_directory id [] = false
in_directory id (g ∷ gs) = equal_bytes g.id id || in_directory id gs

module _ (is_address : Bytes → Bool) where
  -- The first filter of `candidates`.
  unfoldable pub is_suitable : Directory → Bytes → Gateway → Bool
  unfolding allowed
  is_suitable d enclave_address g =
      allowed d g.id enclave_address
      && (not (is_none g.host) && (not (is_address g.host) && not (is_none g.country)))

  -- Both filters, after the identities in `seen`.
  unfoldable pub filtered : Directory → Bytes → List Bytes → List Gateway → List Gateway
  unfolding is_suitable
  filtered d enclave_address seen [] = []
  filtered d enclave_address seen (g ∷ gs) =
      let skipped = filtered d enclave_address seen gs in
      let taken = g ∷ filtered d enclave_address (g.id ∷ seen) gs in
      if is_suitable d enclave_address g && not (has_id g.id seen) then taken else skipped

  unfoldable pub candidates : Directory → Bytes → List Gateway
  unfolding filtered
  candidates d enclave_address = filtered d enclave_address [] d.gateways

  abbrev pub id_or_error : Option Gateway → Result ConnectError Bytes
  id_or_error none = err none_suitable
  id_or_error (some g) = ok g.id

  unfoldable pub pick :
      (List Gateway → Option Gateway) → Directory → EntryChoice → Bytes → Result ConnectError Bytes
  unfolding candidates allowed
  pick choose d random enclave_address = id_or_error (choose (candidates d enclave_address))
  pick choose d (chosen id) enclave_address =
      if not (in_directory id d.gateways)
      then err not_in_directory
      else if allowed d id enclave_address
      then ok id
      else err refused
