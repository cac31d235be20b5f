-- ===== src/Lib.antt =====
-- Rita: the core of Althea's router software, above all its billing. A node counts the traffic that it forwards
-- for its neighbours, keeps a debt for each of them, pays what it owes on a blockchain, and slows
-- down whoever does not pay.
--
-- Parts, from the traffic to the chain:
--   DebtKeeper.antt and DebtKeeper/    rita_common/src/debt_keeper/mod.rs. Node: the account of one
--     node and the methods that act on it. Limit: the thresholds of
--     rita_common/src/blockchain_oracle/mod.rs and the debt limit. Update: `send_update`, which
--     decides to pay, to suspend or to open. Keeper: the map of accounts, `traffic_update`,
--     `gateway_traffic_update`, and the round `send_debt_update` with its messages to the tunnel
--     manager and the payment controller. Load: what a restart keeps. Normalize: amounts from one
--     denomination to another.
--   Billing.antt    the functions of the same file that the other parts call when a payment is
--     settled; they lock the keeper and the amount owed to the maintainers.
--   TxFee.antt    rita_common/src/simulated_txfee_manager/mod.rs, that amount and its payment.
--   Validator.antt and Validator/    rita_common/src/payment_validator/mod.rs. State: the payments
--     that wait, those settled, and those that we sent, with the methods of `PaymentValidator`.
--     Chain: the judgement of a payment by what a full node says of its transaction, and what is
--     booked for it, on xDai; Althea: the same on Althea L1. Incoming: the queue that the instances
--     of one process share. Batch: the batches of a tick. Tick: a tick as a whole.
--   Usage.antt and Usage/    rita_common/src/usage_tracker/mod.rs and structs.rs: the usage by the
--     hour, the payment history that the validator reports to, what is dropped when there is too
--     much, when it is saved, and the throughput.
--   Oracle.antt and Oracle/    rita_common/src/blockchain_oracle/mod.rs: the balance, the last block
--     seen, and the alarm that stops the payments of the debt keeper.
--   ExitManager.antt and ExitManager/    rita_client/src/exit_manager: the blacklist of mod.rs, and the
--     exit switcher of exit_switcher.rs. Switcher: the metrics of a tick. Switcher/Tick: a call of
--     `set_best_exit`, with the window of 180 metrics.
--   Forwarding.antt and Forwarding/    antenna_forwarding_protocol/src/lib.rs: the messages between a
--     node and the server that forwards its antennas. Header, RoundTrip: the packets. Sealed: the
--     forward message. Stream: the messages of a stream. Write: the write to a socket.
--   TunnelManager.antt and TunnelManager/    rita_common/src/tunnel_manager: Gc: gc.rs, the tunnels that
--     are kept. Of mod.rs, Ports: the next free port; Open: `open_tunnel`; Payment: the payment state
--     of the tunnels and the limits of their interfaces.
--   PeerListener.antt and PeerListener/    rita_common/src/peer_listener/message.rs: Message: the
--     packets of the neighbours as bytes; Codec: what is read is what was sent.
--   TrafficWatcher.antt and TrafficWatcher/    rita_common/src/traffic_watcher/mod.rs: the bill of a
--     round for the neighbours, from the counters of the kernel and the prices of babel. Counted: the
--     counters as sums; Owed: the bill. Debts.antt: the table of debts that is collated.
--   ExitTraffic.antt and ExitTraffic/    rita_exit/src/traffic_watcher/mod.rs: the bill of a round for
--     the clients of an exit, with the usage history of
--     althea_kernel_interface/src/wg_iface_counter.rs. Merge: the counters of both interfaces; Billed,
--     One, Loops, Owed: the bill; Free: a transaction fee of 0.
--   ClientTraffic.antt and ClientTraffic/    rita_client/src/traffic_watcher/mod.rs: what a client owes
--     its exit. Bills: beside the exit's bill; Answers: the use of the exit's answer.
--   ExitDatabase.antt and ExitDatabase/    rita_exit/src/database/in_memory_database.rs: the addresses
--     that an exit gives to its clients. Retry: the loops; Subnets: the subnets of an index; Assign,
--     Request: one request; Stable: many requests; Hosts: the internal addresses.
--   Types.antt, Settings.antt    althea_types/src/interop.rs and the payment settings of
--     settings/src/payment.rs and settings/src/lib.rs.
--   Num256.antt    the operations of the num256 crate, whose code is not in the repository, as an
--     interface: a record of operations, each with the laws that the callers rely on. Every
--     definition takes it as a parameter. Num256/Checked.antt is an instance.
--   Outcome.antt    how a method ends: with a value, an error or a panic, in a state.
--   Common.antt and Common/    Boolean tests, integers over the native numbers, association lists.
--
-- How the code is modelled. A method that takes `&mut self` is a function from a state to a result
-- and a state, and what was written before an error or a panic stays written. A global behind a lock
-- is such a state. A HashMap is an association list, whose order stands for the order of iteration,
-- and a HashSet a list. Time is a parameter in seconds. A setting that is read is a field of
-- `PaymentSettings`, or of the settings of the part that reads it. An address and a key are numbers, since this code only compares them. Logging
-- is left out, and so are the separate states of several instances in one process, but for the
-- shared queue. The validator's books hold the list of the payments that it reports to the usage
-- tracker; the tracker's own state is modelled apart from them.
--
-- Bounds. Debts are Int256 and amounts Uint256: an operation whose result does not fit panics, as
-- the crate documents, and a theorem names the sums that have to fit. Loops are structural recursion
-- on the list that they walk. The loops that look for a free address run on eleven rounds, as in the
-- code, which counts its retries. Three loops run on a number of rounds: the trimming of a history,
-- on as many as it has entries, which suffices since each removes one; the saving of the usage, on four,
-- since 5000 is halved while it is at least 1000; and the shared queue, which need not end.
-- Counters and prices have their width and wrap around as in the release build; a product of a
-- price and a number of bytes has 128 bits, and is taken not to overflow.
--
-- Not modelled: the network, files, the command line tools behind althea_kernel_interface, the
-- contract calls, the HTTP endpoints, the parser of babel's output, the exit program but for the
-- addresses of its clients and their bills, and the client program but for the exit switcher and its
-- traffic watcher. The crate ipnetwork and the hash of a key are parameters.
pub mod Common
pub mod Types
pub mod Settings
pub mod Num256
pub mod Samples
pub mod Outcome
pub mod DebtKeeper
pub mod TxFee
pub mod Billing
pub mod Forwarding
pub mod TunnelManager
pub mod ExitManager
pub mod Validator
pub mod Usage
pub mod Oracle
pub mod PeerListener
pub mod ExitDatabase
pub mod Debts
pub mod TrafficWatcher
pub mod ExitTraffic
pub mod ClientTraffic
