-- ===== src/Tests/Hosts.antt =====
-- crates/egress/src/lib.rs and crates/client/src/gateways.rs on short inputs.
use mathlib.Core.List.{Memᴰ}
use tokumai.Base.{
  ℕ, ◌≡◌, refl, inl, Bool, false, true, Option, none, some, List, [], ◌∷◌, ◌++◌, arith,
}
use tokumai.Base.Bytes.{Bytes, codes}
use tokumai.Base.Result.{ok}
use tokumai.Base.Text.{
  lower, is_white, trim, trim_start, trim_end, split_at, split_once, rsplit_once, parse_u16, digits,
  without_empty, ends_with, equal_bytes,
}
use tokumai.Enclave.State.{append, split}
use tokumai.Egress.Host.{
  Host, Outside, serve_all, add_record, ask_put_data_key, ask_put_snapshot, journal_magic,
}
use tokumai.Egress.Host.Key.{serve_all-data_key}
use tokumai.Egress.Host.Same.{IsClean, Agrees, files, offered, add_record-append}
use tokumai.Egress.Host.Twice.{add_record-twice}
use tokumai.Egress.Allow.{
  Rule, serve, tunnel, read_connect, read_head, target_of, allows, any_rule, name_ok, has_port,
  plain_name,
}
use tokumai.Egress.Allow.Rules.{Permits, serve-Permits}
use tokumai.Client.Gateways.{
  Gateway, Directory, random, pick, candidates, filtered, is_suitable, allowed, in_family, has_id,
  has_number, gateway_of, operator_gateways,
}
use tokumai.Client.Gateways.Rule.{IsOutside, pick-IsOutside}

abbrev kept_host : Host
kept_host = record { snapshot = []; journal = []; data_key = 5 ∷ 6 ∷ []; doors = []; last = none }

abbrev brings : Bytes → Outside
brings given = record { given = some given; credentials = none; secrets = none }

serve_all-data_key_example :
    (serve_all
      ((ask_put_data_key, brings (7 ∷ [])) ∷ (ask_put_snapshot, brings (1 ∷ [])) ∷ [])
      kept_host).data_key
    ≡ 5 ∷ 6 ∷ []
serve_all-data_key_example =
    serve_all-data_key
      ((ask_put_data_key, brings (7 ∷ [])) ∷ (ask_put_snapshot, brings (1 ∷ [])) ∷ []) kept_host
      (λ e. cc)

kept_host-IsClean : IsClean kept_host
kept_host-IsClean = record { known = inl refl; whole = λ e. refl }

add_record-append_example :
    Agrees kept_host
      (append (files kept_host) 1 1 (9 ∷ []))
      (add_record (offered 1 1 (9 ∷ [])) kept_host)
add_record-append_example =
    add_record-append 1 1 (9 ∷ []) kept_host kept_host-IsClean (omega arith) (omega arith)

abbrev marked_host : Host
marked_host = record kept_host { journal = journal_magic }

add_record-twice_example :
    ((add_record (offered 1 1 (9 ∷ [])) marked_host).1 ≡ ok false)
    × (split (add_record (offered 1 1 (9 ∷ [])) marked_host).0.journal
        ≡ ok (record { records = []; legacy = false }))
add_record-twice_example =
    add_record-twice 1 (9 ∷ []) marked_host refl refl (omega arith) (omega arith)

abbrev nym_rule : Rule
nym_rule = record { host = codes ".nym.net"; ports = 443 ∷ [] }

abbrev always : Bytes → ℕ → Bool
always host port = true

abbrev connect_line : Bytes
connect_line = codes "CONNECT a.nym.net:443" ++ (13 ∷ 10 ∷ 13 ∷ 10 ∷ [])

connected : (serve (nym_rule ∷ []) always connect_line).1 ≡ some (codes "a.nym.net", 443)
unfolding serve tunnel read_connect read_head target_of allows any_rule name_ok has_port plain_name
    lower is_white trim_start trim_end split_at split_once rsplit_once parse_u16 digits
    without_empty ends_with equal_bytes
connected = refl

serve-Permits_example :
    (read_connect connect_line ≡ ok (codes "a.nym.net", 443))
    × Permits (plain_name (codes "a.nym.net")) 443 (nym_rule ∷ [])
serve-Permits_example =
    serve-Permits (nym_rule ∷ []) always connect_line (codes "a.nym.net") 443 connected

abbrev two_gateways : Directory
two_gateways = record {
  gateways =
      record { node_id = 1; id = codes "ours"; host = codes "a.net"; country = codes "DE" }
      ∷ record { node_id = 2; id = codes "theirs"; host = codes "b.net"; country = codes "FR" }
      ∷ [];
  operator_nodes = 1 ∷ [];
}

abbrev never : Bytes → Bool
never host = false

abbrev first_gateway : List Gateway → Option Gateway
first_gateway [] = none
first_gateway (g ∷ gs) = some g

first_gateway-Mem : (gs : List Gateway) (g : Gateway) → first_gateway gs ≡ some g → Memᴰ g gs
first_gateway-Mem [] g e = cc
first_gateway-Mem (x ∷ xs) g e = Memᴰ.head (cc)

picked : pick never first_gateway two_gateways random (codes "c.e@gate") ≡ ok (codes "theirs")
unfolding pick candidates filtered is_suitable allowed in_family has_id has_number gateway_of
    operator_gateways lower is_white trim_start trim_end trim split_at split_once rsplit_once
    equal_bytes
picked = refl

pick-IsOutside_example : IsOutside two_gateways (codes "c.e@gate") (codes "theirs")
pick-IsOutside_example =
    pick-IsOutside never first_gateway two_gateways random (codes "c.e@gate") (codes "theirs")
      first_gateway-Mem picked
