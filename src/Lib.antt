-- ===== src/Lib.antt =====
-- A verification library for bokser_app, which moves orders, shipments and tokens between SOS
-- Inventory, Acenda, Productiv and a PostgreSQL database. Each part of the program that is modelled
-- is a module; its definitions are translated from the Python source, function by function, and
-- carry the source's names.
--
-- Shipments is the synchronisation of shipments with SOS. Shipments/Queue is the table
-- `shipment_sync` with its ingestion (src/database/utils/shipment_sync_queue.py) and the transactions
-- of `SosShipmentSyncTasks` (src/worker/jobs/push_data/sos/sos_shipment_sync.py). Shipments/Worker
-- runs any number of workers over it as a sequence of events, in any order, with crashes and lost
-- commits; Shipments/Response reads the answer of SOS, and Shipments/Template maps the lines of the
-- posted document.
-- Tokens is src/integrations/_base_client/token_cache.py: Tokens/Provider refreshes a token with the
-- provider, and Tokens/Store keeps it in a cache over the table `auth_tokens`.
-- Http is src/integrations/_base_client/base_client.py, the client that all integrations share; it
-- asks Tokens for its headers. The retry loop runs on fuel, three more than the attempts allowed,
-- which is enough for every attempt and the one repetition after an unauthorized response.
-- State is src/storage/states/state_store.py, the JSON state in which the jobs keep their cursors.
-- Lake is the data lake between download and load: Lake/Names the names of its files
-- (src/storage/raw/writer.py), Lake/Envelope their contents, as they are written there and read in
-- src/worker/jobs/process_data/utils/data_lake_tools.py, and Lake/Manifest the table of its files
-- (src/database/models/data_lake_models.py, src/storage/raw/utils.py) with the claims of the loaders;
-- Lake/Loaders runs both loaders' claims, the ends of loads and registrations in any order.
-- Sos is the SOS loader (src/worker/jobs/process_data/sos/process_sos_data.py): Sos/Files claims
-- files of the manifest and reads them, and Sos/Load puts their records in the tables.
-- Ksp is the KSP gateway (src/integrations/ksp_gateway): Ksp/Journal its durable journal (store.py),
-- and Ksp/Worker any number of workers over it (worker.py), as a sequence of transactions, calls of
-- the gateway and crashes.
-- Tracking is the tracking of containers with Terminal49 (src/integrations/terminal49_client):
-- Tracking/Reference checks what a user enters and Tracking/Choices looks for a container or request
-- that is there already (initiation.py) in the provider's documents, Tracking/Documents (core.py);
-- Tracking/Store is the tables of operations and mappings (store.py, schema.sql);
-- Tracking/Initiation is one round on an operation as the list of its changes, with the protocol
-- that it refines, and Tracking/Worker runs rounds beside the API, with calls that raise and crashes.
-- Documents are taken in the shape that the provider documents; one that is not in that shape raises
-- in the program, which the model has as an answer that is an exception.
-- Downloads is the download jobs: Downloads/Acenda the pages of an endpoint and the newest date
-- (src/worker/jobs/get_data/get_acenda_data.py), and Downloads/Sync the job that lands the endpoints'
-- results and moves their cursors (src/worker/jobs/get_data/base_get.py).
-- OrderPush is the push of sales orders to SOS (src/worker/jobs/push_data/sos/push_to_sos.py): the
-- posts of one order, with its twenty attempts as the recursion's argument and the fallback after
-- them, the rows that record the outcome, and, in OrderPush/Open, the choice of the lines.
-- Json, Dict and PyInt are the Python values that these parts share: JSON values, dicts with text
-- keys and `int` of a text. Prelude passes on library names.
--
-- Identifiers and counts are natural numbers, as the program's columns are integers that a sequence
-- or a counter fills; times are seconds or milliseconds. Network, clock, random numbers, Unicode
-- tables and the payload mappers are parameters of the definitions that use them. Database
-- transactions are taken as atomic, and a row lock as excluding other transactions.
--
-- Not modelled: the downloads from Productiv and SOS, the Acenda, Sutton, warehouse and marketplace
-- processing, the mapping of sales orders, the order mapping and package reports of
-- the KSP gateway, the notifications, feed and shipment operations of Terminal49, Gmail and the web
-- API, which are further components beside these; settings, table declarations, migrations, scripts
-- and deployment, which hold no logic of their own; and file and network I/O.
pub mod Prelude
pub mod Json
pub mod PyInt
pub mod Dict
pub mod Shipments
pub mod Tokens
pub mod Http
pub mod State
pub mod Lake
pub mod Sos
pub mod Ksp
pub mod Tracking
pub mod Downloads
pub mod OrderPush
