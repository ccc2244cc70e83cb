-- ===== src/Lib.antt =====
-- crypto-streaming-lakehouse carries trades from Coinbase to PostgreSQL: the producer (producer/)
-- reads a WebSocket, validates each trade and publishes it to RabbitMQ; the consumer (consumer/)
-- takes it from the queue, buffers it and inserts it in batches into bronze.raw_trades, whose
-- schema the migration runner (infra/) sets up. This library models these Python programs.
--
-- Base: names passed on from the libraries, Boolean tests, lists, integers, decimal numerals, the
-- exceptions, and the JSON values that json.loads returns.
--
-- Consumer.Buffer is class BatchBuffer of consumer/batch_buffer.py: one function per critical
-- section of `add`, `flush`, `stop`, `_start_timer` and `_reset_timer`, on a record of the
-- object's attributes. Consumer.Threads lets threads and timers run these sections in any order: a
-- state holds the object and the position of each call of `flush` in progress, and a schedule is a
-- list of actions. Threads.Messages, Threads.Conservation, Threads.Timers and Threads.Sequential are
-- about it; the last one also has `flush` and `add` as functions, for a call that no other
-- interrupts.
--
-- Consumer.Bronze is the table with its unique index (migrations/*.sql) under the INSERT … ON
-- CONFLICT DO NOTHING. Consumer.Repository is consumer/repository.py over a connection. What
-- psycopg2 and PostgreSQL do is the record Driver of Repository.Connection: operations, and the
-- documented laws of a transaction, for a table that no other session writes meanwhile. A driver that
-- keeps its table in memory satisfies them and runs the examples. Consumer.Storing is a BatchBuffer over
-- such a repository, with one call after the other, and Storing.Consuming the worker over both.
--
-- Consumer.Worker is `on_message` of consumer/consumer.py, for any `repository` object: its effects
-- are a list, and what the environment does (the body, the clock, whether basic_ack and basic_nack
-- return) is part of the delivery. Consumer.Service is consumer/main.py: the worker with a
-- BatchBuffer as its repository, signals, the timer's flush between two deliveries, and the
-- `finally` block.
--
-- Journey follows a trade from the producer to the table, through both services; that json.loads reads
-- what model_dump_json wrote and what the generated column reads are hypotheses there, and RabbitMQ
-- delivers confirmed messages in any order and however often.
--
-- Producer.Backoff is producer/utils.py. Producer.Trade is producer/schemas.py; how Pydantic reads
-- a Decimal or a datetime is a parameter, with no hypotheses. Decimals are a coefficient and an
-- exponent, of which the validators look at the sign; an instant outside of the years 1 to 9999 raises
-- OverflowError, as in Python. Producer.Publisher is producer/publisher.py over a broker given as a function of the number of the call. Producer.Drain is
-- `_drain_retry_queue` of producer/main.py over readings of the clock; it has fuel for 61 rounds,
-- which is enough for 30 seconds of half a second each. Producer.Stream is what `_stream` does to one
-- message, and Producer.Reconnect its `while` loop with producer/ws_client.py; a round of the loop
-- is given by what the connection does in it, and the loop runs over a list of rounds.
--
-- Infra.Migrate is infra/migrate.py over a database that executes texts or refuses them. Of the
-- digits of `\d` it knows the ASCII ones. Infra.Topology is infra/rabbitmq_setup.py: the retries of
-- the connection, the calls that declare the topology, and the exit code; what RabbitMQ does of the
-- calls is the record Rabbit of Topology.Routes, and a server that logs its calls satisfies it.
--
-- Lakehouse is lakehouse/. Lakehouse.Storage has the Parquet files as a list, each with its directory
-- and its rows; a fresh uuid is the next number, and a failed to_parquet leaves no file, as pyarrow
-- removes it. What the code relies on of pandas is the record Frames: the dates of instants in UTC, and
-- that groupby splits the rows by date and loses none; its instance in Lakehouse.Tests groups numbers.
-- Lakehouse.Names and Lakehouse.Exporter are lakehouse/exporter.py, Lakehouse.ExportState is
-- lakehouse/schema.py, Lakehouse.Uploads lakehouse/s3_uploader.py, Lakehouse.Catalog
-- lakehouse/init_catalog.py, and Lakehouse.Export lakehouse/export.py. What Postgres, DuckDB, the
-- file system, the clock and S3 answer to each call is given with the call, each call may raise, and
-- rows are compared by how often each property holds, since neither a scan nor a glob has an order.
-- Instants and marks are microseconds.
--
-- Consumer.Main and Producer.Main are the `main` of both services, Infra.Migrate.Process that of
-- infra/migrate.py: what the environment answers is a record, and the end of the process is a value.
--
-- Dags.Pipeline is dags/crypto_pipeline_dag.py: the tasks and their chain of dependencies; that Airflow
-- tries a task only after its direct upstreams have succeeded is the hypothesis IsScheduled.
-- Dags.Callbacks is dags/dag_callbacks.py, and Dags.Sync dags/metabase_sync.py, whose requests are
-- answered by a function.
--
-- Shared.Logger is shared/logger.py over the loggers of the process, one for each name. Shared.Metrics is
-- shared/metrics.py: the ports of the started servers, and the cache of metrics over
-- constructors given as a function of the number of the call. Consumer.Metrics and Producer.Metrics are
-- the metrics.py of the services: the metrics that they create there when they are imported.
--
-- Times are whole numbers: of seconds for the delays, of milliseconds for the drain, of
-- microseconds for datetimes. Numbers in JSON keep their text, since the code only asks whether one
-- is a float, or is zero; the latter is a parameter.
--
-- Not modelled: the logs, but for those of the drain, of `on_message`, of the callbacks and of the sync;
-- the values of the metrics, but for the counters that the producer's loop and the repository raise;
-- the columns of the Gold tables and the SQL of dbt/.

pub mod Base
pub mod Consumer
pub mod Producer
pub mod Infra
pub mod Lakehouse
pub mod Dags
pub mod Shared
pub mod Journey
