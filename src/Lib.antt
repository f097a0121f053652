-- ===== src/Lib.antt =====
-- IntelliStore: a store of files in chunks, as services that call one another over HTTP and tell one
-- another of uploads and accesses over a message exchange.
--
-- The storage service (services/storage-service) cuts an upload into chunks, stores each under its
-- SHA-256 if it is not there yet, and registers the file with the metadata service
-- (services/metadata-service), which keeps files, versions and chunks in PostgreSQL. The upload is
-- announced; the replication service (services/replication-service) then copies each chunk to the
-- buckets of healthy nodes, watches the nodes' heartbeats and repairs what is missing; the
-- notification service (services/notification-service) writes to the user's inbox, and the analytics
-- service (services/ai-analytics-service) counts the accesses. The auth service (services/auth-service)
-- registers users and issues the tokens that every request brings.
--
-- Files, and the code that they are about:
--   Prelude, Prelude/*       lists by native numbers, tests, tables of rows, ORDER BY as a parameter
--   Effects                  services/*/src/errors/app-error.ts, and async functions that may throw
--   SharedTypes              packages/shared-types/src/index.ts
--   Auth/Tokens              packages/shared-auth/src/index.ts, token.service.ts, auth.middleware.ts
--   Auth/Accounts            auth.service.ts and user.repository.ts of the auth service
--   Notification             notification.repository.ts, notification.service.ts, notification.route.ts
--   Storage/Chunking         chunking/chunking.service.ts of the storage service
--   Storage/Interfaces       storage-backend.ts, metadata.client.ts, event-publisher.ts
--   Storage/Client           HttpMetadataClient of clients/metadata.client.ts
--   Storage/Publisher        events/rabbitmq-event-publisher.ts
--   Storage/Upload           services/upload.service.ts; the children are its proofs, by subject
--   Storage/Download         services/download.service.ts
--   Storage/Routes           routes/upload.route.ts and app.ts of the storage service
--   Metadata/Files           repositories/file.repository.ts and migrations/001_create_files_tables.sql
--   Metadata/Service         services/file.service.ts
--   Replication/Nodes        repositories/node.repository.ts
--   Replication/Replicas     repositories/replica.repository.ts
--   Replication/Service      services/replication.service.ts
--   Replication/Healing      services/self-healing.service.ts
--   Replication/Heartbeat    services/heartbeat-monitor.ts and routes/heartbeat.route.ts
--   Replication/Consumer     index.ts of the replication service, the handler of uploaded batches
--   Replication/Steps        the queries and copies of these operations as steps, as a relation
--   Queue, Queue/Channel     packages/shared-queue/src/index.ts
--   Notification/Consumer    index.ts of the notification service, and the subscriptions of the others
--   Analytics                access-stats.repository.ts and index.ts of services/ai-analytics-service
--   Analytics/Double         the floating-point numbers of the analytics service, as a parameter
--   Analytics/Scoring        scoring/temperature-scoring.ts
--   Analytics/Service, /Reports  services/analytics.service.ts
--   Analytics/Clients        clients/metadata.client.ts and clients/replication.client.ts of that service
--   Http                     services/*/src/middleware and the error handlers of services/*/src/app.ts
--   Metadata/Routes          file.route.ts, validation/file.schema.ts and app.ts of the metadata service
--   Notification/Routes      notification.route.ts and app.ts of the notification service
--   Auth/Routes              auth.route.ts, validation/auth.schema.ts and app.ts of the auth service
--   Storage/LocalFs          storage/local-fs-storage-backend.ts
--   Storage/Minio            storage/minio-storage-backend.ts
--   Replication/NodeStorage  storage/minio-node-storage.ts
--   Migrations               services/*/src/db/migrate.ts, one program in five services
--   Gateway                  services/api-gateway/src/routes/proxy.ts and app.ts
--   Web/Bell                 apps/web/src/components/NotificationBell.tsx, with lib/api.ts
--   System, System/*         the storage service's client over the routes of the metadata service
--   Replication/Routes       replica.route.ts, heartbeat.route.ts and app.ts of the replication service
--   Analytics/Routes         analytics.route.ts and app.ts of the analytics service
--   Web/TopNav               apps/web/src/components/TopNav.tsx
--   Web/Api                  apps/web/src/lib/api.ts and lib/auth-storage.ts
--   Web/Login                apps/web/src/app/login/page.tsx
--   Web/Dashboard, /Search   apps/web/src/app/dashboard/page.tsx
--   Examples/*               each result at an input of its own
--
-- A method of the source has its name here in small letters with underscores. An async function is
-- a function from a world to a result and a world (`Exec`), so what it changed before it threw is
-- seen. A table is the list of its rows, and a query is a function on it; queries do not fail, but
-- for an INSERT that a constraint refuses. Operations run one after another; where two uploads
-- interleave, the order of their steps is written out, and the operations of the replication
-- service are also taken apart into steps that may interleave (Replication/Steps).
--
-- Parameters: SHA-256, JSON web tokens, bcrypt, `fetch`, the MinIO client, node:fs and node:path, the message channel, the object store and the
-- copies between buckets, floating-point numbers, new ids, the order that ORDER BY gives, ILIKE and `trim`. What is assumed
-- of them is in records of laws (IsObjectStore, IsReliable, LeavesObjects, IsNodeStorage,
-- IsMinio, IsNodeFs, IsBroker, IsTokenLibrary, IsSort, IsDouble, Postgres), each with an instance in Examples or Prelude/Sorting.
--
-- Bounds: byte counts and version numbers are natural numbers without an upper bound; the code uses
-- doubles, exact up to 2 ^ 53, and the tables BIGINT and, for version numbers, INT. The INT of a chunk's
-- index refuses those from 2 ^ 31 on, and express.json() bodies over 100kb: the metadata and replication
-- services have both cases, and the bodies of the auth service count as malformed. The loop of splitIntoChunks runs on rounds, one more than the buffer
-- has bytes, which is enough for a positive chunk size. Every other loop is over a list.
--
-- Not modelled: configuration, logging, the health routes but those of the metadata and replication
-- services, CORS but for the OPTIONS that these two answer, timers, and the
-- rendering of the web application. Express, the proxy and the rate limiter are
-- libraries: routes are taken to be tried in order, and paths to be lists of segments.
pub mod Prelude
pub mod Effects
pub mod Http
pub mod SharedTypes
pub mod Auth
pub mod Notification
pub mod Queue
pub mod Analytics
pub mod Storage
pub mod System
pub mod Metadata
pub mod Replication
pub mod Gateway
pub mod Migrations
pub mod Web
pub mod Examples
