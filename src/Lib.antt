-- ===== src/Lib.antt =====
-- Verification of the Python programs of this Puppet environment: the Nagios plugins that watch its
-- machines, and the scripts that describe its Elasticsearch, Hadoop and Kafka clusters and report the
-- versions of its packages. A plugin runs once: it reads its options, asks the system or a service,
-- judges the answers and ends with a line of text and an exit status (0 OK, 1 warning, 2 critical,
-- 3 unknown). The programs do not call each other; what the plugins share is Nagios' reading of the
-- status.
--
-- - Common: texts as lists of character codes, with the methods of `str` that the programs use
--   (`strip`, `split`, `join`, `readlines`, `in`), `int` and `str` of whole numbers, signed integers,
--   dictionaries, the command lines of `optparse`, `argparse` and `getopt`, and the lemmas on them.
--   Argparse sorts all arguments first and gives the events that follow in turn; Optparse gives the
--   settings and what is left over, or an error; Getopt the options with their values.
-- - Zookeeper: profiles/files/nrpeplugins/check_zookeeper.py. Mntr is `ZooKeeperServer._parse` and
--   `_parse_line`, Stat is `_parse_stat` with its regular expressions as prefix parsers, Cluster is
--   `get_stats` and `get_cluster_stats`, Nagios, Cacti and Ganglia are the three handlers, Main is `main`
--   from the parsed options on, and Cli is `parse_cli` with `register_options`.
-- - CheckIo: profiles/files/nrpeplugins/check_io.py. NagiosData and Device are the classes of these
--   names, Diskstats is `fetchPerformanceData` and the search for block devices, Arguments the
--   validators and the checks of `main`, Devices its dictionary of devices, Main the rest of `main`
--   with its `except` clauses, Cli the parser of its arguments. Main/Steps is `main` once more, as a
--   machine whose steps are its parts, in the same surroundings; there the alarm may go off between
--   any two of them.
-- - AwsRds: profiles/files/nrpeplugins/pmp-check-aws-rds.py. Stats is `get_rds_info` and
--   `get_rds_stats`, Load and Free are the branches of `main` for the metrics, Main is the rest
--   from the parsed options on, and Cli its options.
-- - ClusterHealth, PuppetAgent, EtlServer and EsNodes: the scripts check_cluster_health.py,
--   check_puppet_agent_last_run.py and check_etl_server.py of profiles/files/nrpeplugins, and
--   es/facts.d/esnodes.py.
-- - Topology: hadoop/templates/etc/hadoop/conf-puppet/topology.py.erb, the class `RackTopology`.
-- - QueueLag: profiles/templates/collectdplugins/kafka_queue_lag.py.erb, `queue_lag` and the functions
--   that it calls.
-- - AppReport: reporting/templates/bdapps/getReport.py.erb. Its root is `gethosts`, `sshcmd` and
--   `getData`, Page is `getReport` with what it writes, and the end of the script.
-- - StatusFile and Entropy: the scripts check_statusfile and check_entropy of
--   profiles/files/nrpeplugins.
--
-- State is passed explicitly: the variables of a loop are a record or an accumulator, an exception
-- is a constructor of a result type or `none`, and an exit is a value that later code looks at.
-- Numbers that Python does not bound are ℕ or ℤ. Only the decimal digits of a number are computed on
-- fuel, n + 1 for the number n, which is enough since every step divides by ten. A socket of the
-- ZooKeeper plugin gives at most 2048 bytes, as its one `recv` does.
--
-- What the programs do not define is a parameter: the network as a function of host, port and
-- command; the contents of `/proc/diskstats` at each read, its errors, and whether the alarm goes
-- off at a read or at the sleep; the boto, YAML, JSON and HTTP libraries; the output of commands and
-- which programs can be run; the floating-point operations of the RDS plugin. Dictionaries are
-- iterated in the order of the association list; Python 2 leaves the order open. Quotients of the
-- I/O plugin are kept as numerator and denominator and compared exactly. The order of `None` and
-- numbers is that of Python 2. A YAML document is of the kinds that a safe document has, its finite
-- floats in millionths.
--
-- Not modelled: the texts of help and version; debugging output; and what `gmetric` answers, which the
-- program ignores. Of the repository: the programs that are copies of other projects'
-- (check_graphite, check_mongodb, azkaban_cli_td), the plugins that are not written in Python, and the
-- Puppet manifests. What the modelled files hold beyond the definitions is imports, licences and
-- manuals.
pub mod Common
pub mod Zookeeper
pub mod CheckIo
pub mod AwsRds
pub mod ClusterHealth
pub mod PuppetAgent
pub mod EsNodes
pub mod EtlServer
pub mod Topology
pub mod QueueLag
pub mod StatusFile
pub mod Entropy
pub mod AppReport
