-- ===== src/Lib.antt =====
-- Tokumai: a private AI assistant whose server runs in an enclave. The enclave keeps one book of
-- accounts, plans and payments; the host outside it keeps that book sealed, and is not trusted with
-- it; clients reach the enclave over a mixnet, question by question.
--
-- The parts and how they interact:
--   * Core.Calendar and Core.Subscription are crates/core/src/subscription.rs: the UTC calendar
--     (civil_from_ms, ms_from_civil, add_months_ms), the allowance period of a plan (slice_at), the
--     pro rata of an upgrade and the month of a subscriber (Allowance).
--   * Core.Notes is crates/core/src/notes.rs: the month epochs of a note and its 36 bytes.
--   * Enclave.State is crates/enclave/src/state.rs: the format of the host's journal, split and
--     last_number over its bytes, and FileStore, which appends to it.
--   * Enclave.Ledger is crates/enclave/src/ledger.rs. Tables has the tables and one `Change` for each
--     statement that is written down; Money has the operations on the two pockets of an account
--     (hold, settle, release_open_holds, credit_prepaid) and the nonces (first_sight). An operation
--     gives the book after it beside what it wrote down; `replay` is the loop of open_sealed.
--   * Enclave.Ledger.Kept is how the book outlives the enclave: write_down and write_out, which seal and
--     queue, the writer, which carries the queue to the host, and open_sealed.
--   * Enclave.Plans is crates/enclave/src/plans.rs: renew_key and revoke, and in Changes
--     change_tier, roll and move_plan, over those tables and slice_at.
--     Plans.Stale is the list of plans that a check has to ask about (stale), and Plans.Held follows
--     who holds a rail through every one of these operations, as steps of a relation.
--   * Enclave.Apple is crates/enclave/src/apple.rs: the product ids, what a transaction buys (plan_for,
--     credit_for, revoked_plan) and, in Apple.Chain, the signed message and its certificates (verify_jws).
--   * Enclave.Stripe is crates/enclave/src/stripe.rs: what is read out of Stripe's answers (subscription,
--     checkout_subscription, money_back) and what a change of plan asks for (change_subscription).
--   * Enclave.Subscriptions is crates/enclave/src/subscriptions.rs: plan_create, plan_status, plan_change
--     and iap_apply over the book, the plans and the cover, check_stripe and check_apple, and in Beat
--     the tick of every 30 seconds, which also flushes the counts.
--   * Enclave.Stats is the counts of crates/enclave/src/admin.rs (request, event, seen, flush_tallies), and
--     Enclave.Ghost is crates/enclave/src/ghost.rs: request, reply_to and ghosts_wanted.
--   * Enclave.Notes is mint_admission of crates/enclave/src/notes.rs, and Enclave.Notes.Redeem its
--     note_redeem.
--   * Enclave.Witness is crates/enclave/src/witness.rs: may_start and the fold of read.
--   * Enclave.Cover is crates/enclave/src/cover.rs: paid, note and decoys_needed.
--   * Proto.Frames is the answering side of crates/proto/src/frames.rs, the Frames behind `handle`,
--     and Proto.Exchange the asking side, with due_at and accept. Frames.Asked runs histories of frames
--     and replies over the map; Exchange.Fetched hands the frames of the one side to the other.
--   * Enclave.Service is crates/enclave/src/service.rs: sealed, the path of one sealed request with its
--     cache of answers (remember); Service.Request and Service.Chat are the question to a model, with
--     the request of provider.rs and the limits of policy.rs.
--   * Egress.Host is the host of crates/egress/src/lib.rs: its answers to the enclave and the files that
--     it keeps (serve_host, add_record, put_once); Egress.Allow its list of destinations and its proxy.
--   * Client.Gateways is crates/client/src/gateways.rs: the choice of the app's entry gateway.
--   * Base holds what they share: Boolean tests, lists and bytes on native numbers, results, and
--     tables with a numeric key. Tests runs the parts on small inputs.
--
-- Numbers: u64, i64 and usize are natural numbers. Subtraction stops at 0, which is what the
-- saturating subtractions of the source do; the others stand behind a guard that excludes a negative
-- result. Casts to fewer bits are written out (`% 2 ^ 32` in `framed`, `kept_frame` and `period_of`), and so are
-- the saturating additions of `Allowance`. Overflow of the calendar's steps, at times from about 2 ^ 62 ms
-- on, is not modelled.
--
-- Fuel: `split` and `last_number` are given the length of the journal; a round takes at least five
-- bytes. `split_into` is given the length of the reply; a chunk has at least one byte. `trim_to` is
-- given the number of rows, and `make_room` that of the kept answers; a round removes one. `back_to` recurs on the month that it counts down.
-- `decimal` is given the number itself, of which a round takes a tenth, and `trim_matches` the length of
-- the text.
--
-- Parameters: `key` and `rail_key` are the keyed hashes of accounts and rails, `mint_reference` the
-- stored form of a minted month, `spent_key` that of a spent note, `verify` the check of a note's
-- signature.
-- `Codec` is the sealing of a piece of the book to its place and the JSON of changes and books;
-- `IsCodec` says that what was sealed or written is read back. `choose` is a random choice,
-- `is_address` the test for a bare IP address, `reachable` whether a connection can be made.
-- In Service the opening and sealing of an envelope, its hash, the JSON of a request and the account's
-- signature are parameters, and `dispatch` is what the operations do, of which the proofs use that it
-- leaves the nonces alone; `Prices` stands for the prices in floating point, `Models` for the providers
-- and the moderation.
--
-- In Apple, `Reader` is the decoding of base64 and JSON and the check of an ECDSA signature, `Certs` what
-- the parser of certificates says and verifies, and `sandbox` the build's switch. In Subscriptions,
-- `Processor` is what Stripe answers at the time of a call and `AppStore` what Apple does; a request is
-- its parsed fields. In Ghost, `mac` is the keyed hash; in Stats, `show` prints a number.
--
-- A delivery to the host is one step, and so is every append and every snapshot: what a stop inside
-- one of them leaves is not modelled, except for the journals of Egress.Host.Twice and State.Split.
--
-- Not modelled: the hours at which the writer speaks to the witness and the waiting for it, the RSA blind
-- signatures and derivations of the notes, accounts and their signatures, attestation and KMS, the
-- HTTP clients of Stripe, Apple, OpenAI, Gemini and S3, the JSON of the operator's answers, billing in floating point, the mixnet, the binaries
-- and the app. They are I/O, cryptography or glue.
pub mod Base
pub mod Client
pub mod Core
pub mod Egress
pub mod Enclave
pub mod Proto
pub mod Tests
