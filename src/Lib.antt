-- ===== src/Lib.antt =====
-- Symbol Bootstrap: the parts of the tool that compute, with the theorems that make them correct.
--
-- The program creates and runs the nodes of a Symbol network. A command merges presets into one
-- configuration, resolves the accounts of the nodes, keeps them in yaml files whose private keys
-- are encrypted, makes certificates and voting keys, and announces link transactions.
--
-- - Value: the JavaScript values that yaml files hold.
-- - Crypto: `CryptoUtils` of src/service/CryptoUtils.ts, the encryption of private keys in a value
--   and their removal according to the security mode.
-- - Yaml: `YamlUtils` of src/service/YamlUtils.ts, the files that hold encrypted values.
-- - Voting: voting keys. Voting/File is the binary key file of src/service/VotingUtils.ts,
--   Voting/Folder the folder of a node's key files and its loading, Voting/Service the decision of
--   src/service/VotingService.ts when a node gets a new key, with the native provider of
--   src/service/VotingKeyFileProvider.ts.
-- - Nemesis: `processNemesisBalances` of src/service/AddressesService.ts, the distribution of a
--   mosaic's supply over the accounts of a new network.
-- - Link: src/service/LinkService.ts. Link is the remote and the VRF key, Link/Voting the voting keys
--   and `createTransactions`.
-- - Account: the accounts of a node. Account is src/service/ConfigurationUtils.ts and
--   `resolveAccount` of src/service/AddressesService.ts, Account/Node its `resolveNodeAccounts`,
--   Account/Resolver the resolvers of src/service/AccountResolver.ts and
--   src/service/BootstrapAccountResolver.ts.
-- - Migration: src/service/MigrationService.ts. Migration is `migrate`, Migration/Addresses the
--   migration of addresses.yml.
-- - Certificate: `run` of src/service/CertificateService.ts and what it reads out of the output of
--   openssl (Certificate/Output).
-- - Preset: src/service/ConfigLoader.ts. Preset is the defaults of the nodes, Preset/Expand the
--   templates and repeated services, Preset/Load the files and Preset/Create `createPresetData`.
-- - Announce: src/service/AnnounceService.ts. Announce/Send announces one transaction,
--   Announce/Cosigners asks for the cosigners of a multisig account, Announce/Nodes is `announce`.
-- - Multisig: src/service/ModifyMultisigService.ts, the modification of a multisig account; it is one
--   of the factories of transactions that Announce is given (Multisig/Factory).
-- - Remote: src/service/RemoteNodeService.ts, the gateways and peers of a running network;
--   Remote/Service is what it keeps and `resolveRestUrlsForServices`.
-- - Poll: `poll` of src/service/AsyncUtils.ts.
-- - Run: src/service/RunService.ts, which starts and stops the network; Run/Health polls its services.
-- - Compose: src/service/ComposeService.ts, which writes docker-compose.yml. Compose is what every
--   service goes through, Compose/Services and Compose/Web are the services of each kind, Compose/File
--   is the file and `run`, and Compose/Prune is `pruneEmpty` of src/service/Utils.ts.
-- - Config: parts of src/service/ConfigService.ts. Config is the peers that the nodes are given,
--   Config/Genesis the transactions of the nemesis block, Config/Seed its seed, and Config/Cleanup
--   the deletion of folders of src/service/FileSystemService.ts.
-- - Verify: src/service/VerifyService.ts, the report on the machine.
-- - Report: src/service/ReportService.ts, what a report says of a properties file; in Report/Files
--   the reports of the nodes as rst and csv and the folder that a run leaves; in Report/Blocks the
--   properties files that the theorems read, as the templates of the nodes print them.
-- - Action: code that changes a state, may throw and may wait for the user; Action/Keeps and
--   Action/Gives are its rules of proof.
-- - Base: lists, texts, results and Boolean tests that the parts share.
--
-- JavaScript strings are lists of UTF-16 code units (Base/Text). A number is a natural number where
-- the program has no other, and `Base/Int` where a negative one is tested for. A function that may
-- throw returns a `Result`; an `async` function is the function of its awaited result. lodash's
-- iterations are written as recursion, and `LinkAction` of symbol-sdk is a data type; all other code
-- of packages is a parameter, and what is assumed of it is a hypothesis. There is no fuel: every
-- loop runs over a list or counts down. The questions to the user are answered from lists, and a
-- question behind the end of its list waits for ever.
--
-- Writing files fails only in Run and Config/Genesis; elsewhere the model takes writes to succeed.
-- What `Promise.all` runs at the same time is taken in turn.
--
-- Not modelled: the log, the prompts' texts, docker itself, and the file system beyond maps of texts,
-- folders of key files, the two files of a seed, a tree that is deleted, and the commands that Run
-- logs; the rendering of templates (handlebars) and with it the configuration folders that
-- ConfigService makes of them, the order of its steps, and the files of the gateways and explorers;
-- and the command line of src/commands.
pub mod Base
pub mod Action
pub mod Value
pub mod Crypto
pub mod Yaml
pub mod Voting
pub mod Nemesis
pub mod Account
pub mod Certificate
pub mod Compose
pub mod Config
pub mod Link
pub mod Announce
pub mod Multisig
pub mod Remote
pub mod Poll
pub mod Run
pub mod Verify
pub mod Report
pub mod Migration
pub mod Preset
